-- ===== src/Worker/Streams.antt =====
-- The loop of the incremental worker on concrete streams.
use rules_elide.Prelude.{
  true, ℕ, ◌≤◌, ◌≡◌, ◌∙◌, refl, sym, subst, List, [], ◌∷◌, ◌++◌, arith, All, some, ok, err,
  ok_injective, length,
}
use rules_elide.Prelude.Text.{Text, codes, text_eq}
use rules_elide.Prelude.Dict.{lookup}
use rules_elide.Worker.Codec.{
  Field, message_fields, fields_rounds, parse_field, parse_content, cursor_varint, cursor_skip,
  varint_rounds,
}
use rules_elide.Worker.Messages.{
  Utf8, WorkRequest, WorkResponse, max_message, text, request_field, request_fields, parse_request,
  write_varint, write_rounds, write_string, write_response, error_bytes, error_response,
}
use rules_elide.Worker.Messages.Arguments.{IsShort, IsCarried}
use rules_elide.Worker.Messages.Reported.{check_responses-error}
use rules_elide.Worker.Signature.{index_of}
use rules_elide.Worker.Incremental.{
  Env, Failure, Outside, start, positions, target_for, new_target, compiler_arguments, set_at,
  respond,
}
use rules_elide.Worker.Incremental.Replies.{SendsShort, respond-request_id}
use rules_elide.Worker.Serve.{serve, answers, sent, received, WasRead, serve-sent}
use rules_elide.Wire.Varint.{compile_failed}
use rules_elide.Wire.Response.{check_responses}
use rules_elide.Wire.Response.Laws.{join_frames}

abbrev plain_codec : Utf8
plain_codec = record { encode = λ t. t; decode = λ bytes. some bytes }

-- Every new directory has the same name, as in a worker of one call.
abbrev one_call : Env
one_call = record {
  digests = record {
    utf8 = plain_codec;
    sha256 = λ bytes. bytes;
    base64 = λ bytes. bytes;
    path_leb = λ p q. true;
  };
  absolute = λ t. t;
  resolve = λ p q. p ++ q;
  fresh = λ roots. codes "r";
}

abbrev describe : Failure → Text
describe failure = codes "failed"

describe-IsCarried : (failure : Failure) → IsCarried plain_codec (describe failure)
describe-IsCarried failure = record { short = omega arith; decoded = refl }

abbrev compiles : Outside
compiles = record {
  reply = λ asked.
      ok (some (record { bytes = []; exit_code = 0; request_id = asked.request_id; output = [] }));
  packs = true;
}

-- The arguments `--`, `-d` and `o`.
abbrev output_message : List ℕ
output_message = 10 ∷ 2 ∷ 45 ∷ 45 ∷ 10 ∷ 2 ∷ 45 ∷ 100 ∷ 10 ∷ 1 ∷ 111 ∷ []

abbrev argument_field : Text → List ℕ → Field
argument_field t raw = record { number = 1; wire = 2; scalar = 0; bytes = t; raw = raw }

abbrev output_request : WorkRequest
output_request = record {
  fields =
      argument_field (codes "--") (10 ∷ 2 ∷ 45 ∷ 45 ∷ [])
      ∷ argument_field (codes "-d") (10 ∷ 2 ∷ 45 ∷ 100 ∷ [])
      ∷ argument_field (codes "o") (10 ∷ 1 ∷ 111 ∷ [])
      ∷ [];
  arguments = codes "--" ∷ codes "-d" ∷ codes "o" ∷ [];
  inputs = [];
  request_id = 0;
}

output_request-read : parse_request plain_codec output_message ≡ ok output_request
unfolding parse_request message_fields fields_rounds parse_field parse_content cursor_varint
    cursor_skip varint_rounds request_fields request_field text
output_request-read = refl

output_positions : positions output_request.arguments ≡ ok (0, 1, codes "o")
unfolding positions index_of text_eq
output_positions = refl

output_sends : All (IsShort plain_codec) (
    compiler_arguments one_call 0 1
      (target_for one_call (codes "o") output_request start).1
      output_request.arguments)
unfolding compiler_arguments set_at target_for new_target start lookup
output_sends =
    (omega arith, (omega arith, (omega arith, (omega arith, (omega arith, (omega arith, tt))))))

output-SendsShort : SendsShort one_call output_request start
output-SendsShort = λ separator destination written h.
    subst
      (λ q. All (IsShort plain_codec) (
        compiler_arguments one_call q.0 q.1 (target_for one_call q.2 output_request start).1
          output_request.arguments))
      (ok_injective {E = Failure} (sym output_positions ∙ h)) output_sends

respond-request_id_example :
    (r : WorkResponse) × ((respond one_call describe compiles output_request start).1 ≡ ok r)
    × (r.request_id ≡ output_request.request_id)
respond-request_id_example =
    respond-request_id one_call describe compiles output_message output_request start
      describe-IsCarried output_request-read output-SendsShort

output-WasRead : WasRead one_call output_request
output-WasRead = record { message = output_message; fits = omega arith; read = output_request-read }

serve-sent_example :
    (serve one_call describe (λ n. compiles) 2 0 (sent (output_request ∷ [])) start ≡ (
      received (answers one_call describe (λ n. compiles) 0 (output_request ∷ []) start).0,
      ok (answers one_call describe (λ n. compiles) 0 (output_request ∷ []) start).1,
    ))
    × (length (answers one_call describe (λ n. compiles) 0 (output_request ∷ []) start).0
        ≡ length (output_request ∷ []))
serve-sent_example =
    serve-sent one_call describe (λ n. compiles) (output_request ∷ []) 2 0 start describe-IsCarried
      (output-WasRead, tt) (omega arith)

error-short : length (error_bytes plain_codec 7 (codes "b")) ≤ max_message
unfolding error_bytes write_string write_varint write_rounds
error-short = omega arith

check_responses-error_example :
    (r : WorkResponse) × (error_response plain_codec 7 (codes "b") ≡ ok r)
    × (check_responses (join_frames [] ++ (write_response r ++ [])) 1
        ≡ err (compile_failed (codes "b")))
check_responses-error_example =
    check_responses-error plain_codec [] 7 1 (codes "b") [] tt
      (record { short = omega arith; decoded = refl }) (omega arith) error-short
