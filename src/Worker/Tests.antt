-- ===== src/Worker/Tests.antt =====
-- The incremental worker on concrete messages and calls.
use rules_elide.Prelude.{
  ℕ, ◌+◌, ◌*◌, ◌^◌, ◌≤◌, ◌<◌, ◌≡◌, ◌≢◌, refl, ap, List, [], ◌∷◌, ◌++◌, arith, none, some, ok, err,
  length, length-append,
}
use rules_elide.Prelude.Text.{codes}
use rules_elide.Worker.Codec.{
  Field, message_fields, fields_rounds, parse_field, parse_content, cursor_varint, cursor_skip,
  varint_rounds, out_of_fuel, truncated_varint,
}
use rules_elide.Worker.Codec.Total.{message_fields-total}
use rules_elide.Worker.Messages.{
  Utf8, WorkRequest, WorkResponse, write_varint, write_rounds, write_string, text, request_field,
  request_fields, parse_request, parse_delimited_request, with_arguments, write_request,
  error_bytes, error_response, parse_delimited_response, write_response, max_message,
}
use rules_elide.Worker.Messages.Forward.{parse_delimited_request-write_request}
use rules_elide.Worker.Messages.Arguments.{
  Others, IsCarried, argument, with_arguments-parse_request,
}
use rules_elide.Worker.Messages.Interop.{understood, parse_delimited_request-request}
use rules_elide.Worker.Messages.Failure.{parse_delimited_response-error}
use rules_elide.Wire.Varint.{varint}
use rules_elide.Wire.Varint.Encode.{varint-groups, length-groups}
use rules_elide.Wire.Fields.{field}
use rules_elide.Wire.Fields.Laws.{join_fields}
use rules_elide.Wire.Request.{Host, request}
use rules_elide.Wire.Request.Laws.{contents_of}

abbrev plain_codec : Utf8
plain_codec = record { encode = λ t. t; decode = λ bytes. some bytes }

-- The argument `a` and the request id 5.
abbrev small_message : List ℕ
small_message = 10 ∷ 1 ∷ 97 ∷ 24 ∷ 5 ∷ []

abbrev small_request : WorkRequest
small_request = record {
  fields =
      record { number = 1; wire = 2; scalar = 0; bytes = 97 ∷ []; raw = 10 ∷ 1 ∷ 97 ∷ [] }
      ∷ record { number = 3; wire = 0; scalar = 5; bytes = []; raw = 24 ∷ 5 ∷ [] }
      ∷ [];
  arguments = (97 ∷ []) ∷ [];
  inputs = [];
  request_id = 5;
}

small_request-read : parse_request plain_codec small_message ≡ ok small_request
unfolding parse_request message_fields fields_rounds parse_field parse_content cursor_varint
    cursor_skip varint_rounds request_fields request_field text
small_request-read = refl

-- A group that does not end.
open_group : message_fields (11 ∷ []) ≡ err truncated_varint
unfolding message_fields fields_rounds parse_field parse_content cursor_varint varint_rounds
open_group = refl

message_fields-total_example : message_fields small_message ≢ err out_of_fuel
message_fields-total_example = message_fields-total small_message

parse_delimited_request-write_request_example :
    parse_delimited_request plain_codec (write_request small_request ++ 7 ∷ [])
    ≡ ok (some small_request, 7 ∷ [])
parse_delimited_request-write_request_example =
    parse_delimited_request-write_request plain_codec small_message (7 ∷ []) (omega arith)
      small_request-read

b-IsCarried : IsCarried plain_codec (codes "b")
b-IsCarried = record { short = omega arith; decoded = refl }

with_arguments-parse_request_example :
    (kept : List Field) × Others small_request.fields kept
    × (with_arguments plain_codec (codes "b" ∷ []) small_request
        ≡ ok (record small_request {
          arguments = codes "b" ∷ [];
          fields = argument plain_codec (codes "b") ∷ kept;
        }))
with_arguments-parse_request_example =
    with_arguments-parse_request plain_codec small_message (codes "b" ∷ []) (b-IsCarried, tt)
      small_request-read

field-short :
    (n : ℕ) (payload : List ℕ)
    → n < 2 ^ 29
    → length payload < 2 ^ 63
    → length (field n payload) ≤ length payload + 20
unfolding field
field-short n payload h k =
    let tag = n * 8 + 2 in
    let size = length payload in
    omega (
      arith,
      length-append (varint tag) (varint size ++ payload),
      length-append (varint size) payload,
      ap length (varint-groups 9 tag (omega (arith, h))),
      length-groups 9 tag,
      ap length (varint-groups 9 size (omega (arith, k))),
      length-groups 9 size,
    )

abbrev plain_host : Host
plain_host = record {
  encode = codes;
  sha256 = λ contents. contents;
  read_bytes = λ path. some (9 ∷ []);
  read_paths = λ path. none;
}

request-short :
    length (join_fields (contents_of plain_host ("a" ∷ []) (("p", 9 ∷ []) ∷ []))) ≤ max_message
unfolding join_fields
request-short =
    let path = field-short 1 (codes "p") (omega arith) (omega arith) in
    let digest = field-short 2 (9 ∷ []) (omega arith) (omega arith) in
    let entry = field 1 (codes "p") ++ (field 2 (9 ∷ []) ++ []) in
    let entry_length = length-append (field 1 (codes "p")) (field 2 (9 ∷ []) ++ []) in
    let digest_length = length-append (field 2 (9 ∷ [])) [] in
    let first = field-short 1 (codes "a") (omega arith) (omega arith) in
    let second =
      field-short 2 entry (omega arith)
        (omega (arith, path, digest, entry_length, digest_length)) in
    omega (
      arith,
      path,
      digest,
      entry_length,
      digest_length,
      first,
      second,
      length-append (field 1 (codes "a")) (field 2 entry ++ []),
      length-append (field 2 entry) [],
    )

parse_delimited_request-request_example :
    (written : List ℕ) × (request plain_host ("a" ∷ []) ("p" ∷ []) ≡ ok written)
    × (parse_delimited_request plain_codec (written ++ [])
        ≡ ok (some (understood plain_codec plain_host ("a" ∷ []) (("p", 9 ∷ []) ∷ [])), []))
parse_delimited_request-request_example =
    parse_delimited_request-request plain_codec plain_host ("a" ∷ []) (("p", 9 ∷ []) ∷ []) []
      (refl, tt) (refl, tt) (refl, tt) request-short

error-short : length (error_bytes plain_codec 7 (codes "b")) ≤ max_message
unfolding error_bytes write_string write_varint write_rounds
error-short = omega arith

parse_delimited_response-error_example :
    (r : WorkResponse) × (error_response plain_codec 7 (codes "b") ≡ ok r)
    × (parse_delimited_response plain_codec (write_response r ++ []) ≡ ok (some r, []))
    × (r.exit_code ≡ 1)
    × (r.request_id ≡ 7)
    × (r.output ≡ codes "b")
parse_delimited_response-error_example =
    parse_delimited_response-error plain_codec 7 (codes "b") [] b-IsCarried (omega arith)
      error-short
