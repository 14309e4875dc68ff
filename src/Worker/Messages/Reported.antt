-- ===== src/Worker/Messages/Reported.antt =====
-- A failure of the incremental worker, as gen_workrequest.py reports it.
use rules_elide.Prelude.{
  ℕ, ◌^◌, ◌≤◌, ◌<◌, ◌≡◌, List, [], ◌∷◌, ◌++◌, arith, append_assoc, append-nil, length, All, ok, err,
}
use rules_elide.Prelude.Text.{Text}
use rules_elide.Worker.Messages.{
  Utf8, WorkResponse, max_message, to_long, error_bytes, error_response, write_response,
}
use rules_elide.Worker.Messages.Varint.{write_varint-varint}
use rules_elide.Worker.Messages.Arguments.{IsCarried, write_string-field}
use rules_elide.Worker.Messages.Failure.{to_long_fits, error_response-failed, failed}
use rules_elide.Wire.Varint.{compile_failed}
use rules_elide.Wire.Fields.{FieldValue, number, bytes}
use rules_elide.Wire.Fields.Numbers.{join_written, number_field, written, fields-join_written}
use rules_elide.Wire.Response.{check_response, check_responses}
use rules_elide.Wire.Response.Laws.{Passes, frame, join_frames}
use rules_elide.Wire.Response.Refusals.{check_responses-failing}

module _ (utf8 : Utf8) where
  open utf8 use {encode}

  abbrev error_parts : ℕ → Text → List (ℕ × FieldValue)
  error_parts id message =
      (1, number 1) ∷ (2, bytes (encode message)) ∷ (3, number (to_long id)) ∷ []

  error_bytes-written :
      (id : ℕ) (message : Text)
      → IsCarried utf8 message
      → id < 2 ^ 32
      → error_bytes utf8 id message ≡ join_written (error_parts id message)
  unfolding error_bytes join_written written number_field
  error_bytes-written id message c h =
      rw
        (
          write_varint-varint 8 (omega arith),
          write_varint-varint 1 (omega arith),
          write_varint-varint 24 (omega arith),
          write_varint-varint (to_long id) (to_long_fits id h),
          write_string-field utf8 2 message (omega arith) c.short,
        )
        (simp (append_assoc, append-nil))

  check_response-error_bytes :
      (id : ℕ) (message : Text)
      → IsCarried utf8 message
      → id < 2 ^ 32
      → check_response (error_bytes utf8 id message) ≡ err (compile_failed (encode message))
  unfolding check_response
  check_response-error_bytes id message c h = rw (
    error_bytes-written id message c h,
    fields-join_written (error_parts id message) (
      (omega arith, omega arith),
      (
        (omega arith, omega (arith, c.short)),
        ((omega arith, omega (arith, to_long_fits id h)), tt),
      ),
    ),
  )

  -- Behind responses that pass, an error of the Java worker, with an `int` as its id and a message
  -- that the codec carries, in a response of 64 MiB at most, is what check_responses reports, with
  -- the bytes of its message, whatever follows.
  pub check_responses-error :
      (messages : List (List ℕ)) (id expected : ℕ) (message : Text) (rest : List ℕ)
      → All Passes messages
      → IsCarried utf8 message
      → id < 2 ^ 32
      → length (error_bytes utf8 id message) ≤ max_message
      → (r : WorkResponse) × (error_response utf8 id message ≡ ok r)
        × (check_responses (join_frames messages ++ (write_response r ++ rest)) expected
            ≡ err (compile_failed (encode message)))
  unfolding frame write_response failed
  check_responses-error messages id expected message rest pass c h small =
      let sent : write_response (failed utf8 id message) ≡ frame (error_bytes utf8 id message) =
        rw (write_varint-varint (length (error_bytes utf8 id message)) (omega (arith, small))) in
      (
        failed utf8 id message,
        error_response-failed utf8 id message c h,
        rw sent (
            check_responses-failing messages (error_bytes utf8 id message) rest expected pass
              (omega (arith, small)) (check_response-error_bytes id message c h)),
      )
