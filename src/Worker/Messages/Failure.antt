-- ===== src/Worker/Messages/Failure.antt =====
-- `WorkResponse.error`, and responses on a stream.
use rules_elide.Prelude.{
  ℕ, ◌^◌, ◌≤◌, ◌<◌, ◌≡◌, ◌∙◌, refl, List, [], ◌∷◌, ◌++◌, arith, append_assoc, append-nil, length,
  ok, Result-cases, some, inl, inr,
}
use rules_elide.Prelude.Text.{Text}
use rules_elide.Worker.Codec.{Field, message_fields}
use rules_elide.Worker.Codec.Message.{raws, message_fields-raws}
use rules_elide.Worker.Messages.{
  Utf8, WorkResponse, max_message, to_int, to_long, text, response_field, response_fields,
  parse_response, parse_delimited_response, error_bytes, error_response, write_response,
}
use rules_elide.Worker.Messages.Varint.{write_varint-varint, read_message-frame}
use rules_elide.Worker.Messages.Sized.{sized, counted, sized-IsWhole, counted-IsWhole}
use rules_elide.Worker.Messages.Arguments.{IsCarried, write_string-field}
use rules_elide.Wire.Varint.{varint}

-- An `int` goes through a `long` and back.
to_int-to_long : (n : ℕ) → n < 2 ^ 32 → to_int (to_long n) ≡ n
to_int-to_long n h = ground (arith, h)

pub to_long_fits : (n : ℕ) → n < 2 ^ 32 → to_long n < 2 ^ 64
to_long_fits n h = ground (arith, h)

module _ (utf8 : Utf8) where
  open utf8 use {encode}

  response_field-bytes :
      (response : WorkResponse) (f : Field) {r : WorkResponse}
      → response_field utf8 response f ≡ ok r
      → r.bytes ≡ response.bytes
  unfolding response_field
  response_field-bytes response f e = ground (arith, e)

  response_fields-bytes :
      (response : WorkResponse) (fs : List Field) {r : WorkResponse}
      → response_fields utf8 response fs ≡ ok r
      → r.bytes ≡ response.bytes
  unfolding response_fields
  response_fields-bytes response [] e = ground (arith, e)
  response_fields-bytes response (f ∷ fs) {r} e =
      elim (Result-cases (response_field utf8 response f)) [
        | inr (x, bad) ↦ absurd (ground (arith, bad, e))
        | inl (next, good) ↦
            response_fields-bytes next fs {r = r} (ground (arith, good, e))
            ∙ response_field-bytes response f good
      ]

  parse_response-bytes :
      (bytes : List ℕ) {r : WorkResponse} → parse_response utf8 bytes ≡ ok r → r.bytes ≡ bytes
  unfolding parse_response
  parse_response-bytes bytes {r} e = elim (Result-cases (message_fields bytes)) [
    | inr (x, bad) ↦ absurd (ground (arith, bad, e))
    | inl (fs, good) ↦
        response_fields-bytes (record { bytes = bytes; exit_code = 0; request_id = 0; output = [] })
          fs {r = r} (ground (arith, good, e))
  ]

  parse_delimited_response-write_response :
      (bytes rest : List ℕ) {r : WorkResponse}
      → length bytes ≤ max_message
      → parse_response utf8 bytes ≡ ok r
      → parse_delimited_response utf8 (write_response r ++ rest) ≡ ok (some r, rest)
  unfolding parse_delimited_response write_response
  parse_delimited_response-write_response bytes rest {r} small e =
      let sent : write_response r ++ rest ≡ varint (length bytes) ++ (bytes ++ rest) = rw (
        parse_response-bytes bytes e,
        write_varint-varint (length bytes) (omega (arith, small)),
        append_assoc,
      ) in
      rw (sent, read_message-frame bytes rest small) (ground (arith, e))

  error_fields : ℕ → Text → List Field
  error_fields id message = counted 1 1 ∷ sized 2 (encode message) ∷ counted 3 (to_long id) ∷ []

  error_bytes-raws :
      (id : ℕ) (message : Text)
      → IsCarried utf8 message
      → id < 2 ^ 32
      → error_bytes utf8 id message ≡ raws (error_fields id message)
  unfolding error_bytes raws error_fields
  error_bytes-raws id message c h =
      rw
        (
          write_varint-varint 8 (omega arith),
          write_varint-varint 1 (omega arith),
          write_varint-varint 24 (omega arith),
          write_varint-varint (to_long id) (to_long_fits id h),
          write_string-field utf8 2 message (omega arith) c.short,
        )
        (simp (append_assoc, append-nil))

  unfoldable pub failed : ℕ → Text → WorkResponse
  failed id message = record {
    bytes = error_bytes utf8 id message;
    exit_code = 1;
    request_id = id;
    output = message;
  }

  pub error_response-failed :
      (id : ℕ) (message : Text)
      → IsCarried utf8 message
      → id < 2 ^ 32
      → error_response utf8 id message ≡ ok (failed id message)
  unfolding error_response parse_response response_fields response_field text error_fields failed
  error_response-failed id message c h =
      let read : message_fields (error_bytes utf8 id message) ≡ ok (error_fields id message) =
        rw (error_bytes-raws id message c h) (
          message_fields-raws (error_fields id message) (
            counted-IsWhole 1 1 (omega arith) (omega arith) (omega arith),
            (
              sized-IsWhole 2 (encode message) (omega arith) (omega arith) (omega (arith, c.short)),
              (counted-IsWhole 3 (to_long id) (omega arith) (omega arith) (to_long_fits id h), tt),
            ),
          )) in
      rw read (ground (arith, c.decoded, to_int-to_long id h))

  -- Where the codec carries the message and the response is of 64 MiB at most, an error is a
  -- response with exit code 1, the id of the request, any `int`, and the message, and the reader of
  -- the other end gets the same response and stops behind it.
  pub parse_delimited_response-error :
      (id : ℕ) (message : Text) (rest : List ℕ)
      → IsCarried utf8 message
      → id < 2 ^ 32
      → length (error_bytes utf8 id message) ≤ max_message
      → (r : WorkResponse) × (error_response utf8 id message ≡ ok r)
        × (parse_delimited_response utf8 (write_response r ++ rest) ≡ ok (some r, rest))
        × (r.exit_code ≡ 1)
        × (r.request_id ≡ id)
        × (r.output ≡ message)
  unfolding failed error_response
  parse_delimited_response-error id message rest c h small =
      let made = error_response-failed id message c h in
      (
        failed id message,
        made,
        parse_delimited_response-write_response (error_bytes utf8 id message) rest small made,
        refl,
        refl,
        refl,
      )
