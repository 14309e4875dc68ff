-- ===== src/Worker/Messages/Forward.antt =====
-- What forwarding a request keeps: `writeDelimitedTo`, and `withArguments` on the other fields.
use rules_elide.Prelude.{
  ℕ, ◌≤◌, ◌≡◌, ◌∙◌, ap, sym, true, false, List, [], ◌∷◌, ◌++◌, arith, append_assoc, length,
  Bool-cases, ok, Result-cases, some, inl, inr,
}
use rules_elide.Prelude.Text.{Text}
use rules_elide.Worker.Codec.{Field, message_fields}
use rules_elide.Worker.Codec.Message.{raws, message_fields-IsWhole}
use rules_elide.Worker.Messages.{
  Utf8, WorkRequest, max_message, has_shape, request_field, request_fields, parse_request,
  parse_delimited_request, write_request, other_fields,
}
use rules_elide.Worker.Messages.Varint.{write_varint-varint, read_message-frame}

module _ (utf8 : Utf8) where
  request_field-fields :
      (request : WorkRequest) (f : Field) {r : WorkRequest}
      → request_field utf8 request f ≡ ok r
      → r.fields ≡ request.fields
  unfolding request_field
  request_field-fields request f e = ground (arith, e)

  pub request_fields-fields :
      (request : WorkRequest) (fs : List Field) {r : WorkRequest}
      → request_fields utf8 request fs ≡ ok r
      → r.fields ≡ request.fields
  unfolding request_fields
  request_fields-fields request [] e = ground (arith, e)
  request_fields-fields request (f ∷ fs) {r} e =
      elim (Result-cases (request_field utf8 request f)) [
        | inr (x, bad) ↦ absurd (ground (arith, bad, e))
        | inl (next, good) ↦
            request_fields-fields next fs {r = r} (ground (arith, good, e))
            ∙ request_field-fields request f good
      ]

  -- An argument changes the arguments only.
  request_field-argument :
      (request : WorkRequest) (f : Field) (kept : List Field) (args : List Text) {r : WorkRequest}
      → has_shape f 1 2 ≡ true
      → request_field utf8 request f ≡ ok r
      → record r { fields = kept; arguments = args }
        ≡ record request { fields = kept; arguments = args }
  unfolding request_field
  request_field-argument request f kept args h e = ground (arith, h, e)

  -- Any other field does not look at the arguments.
  request_field-other :
      (request : WorkRequest) (f : Field) (kept : List Field) (args : List Text) {r : WorkRequest}
      → has_shape f 1 2 ≡ false
      → request_field utf8 request f ≡ ok r
      → request_field utf8 (record request { fields = kept; arguments = args }) f
        ≡ ok (record r { fields = kept; arguments = args })
  unfolding request_field
  request_field-other request f kept args h e = ground (arith, h, e)

  pub request_fields-other :
      (request : WorkRequest) (fs kept : List Field) (args : List Text) {r : WorkRequest}
      → request_fields utf8 request fs ≡ ok r
      → request_fields utf8 (record request { fields = kept; arguments = args }) (other_fields fs)
        ≡ ok (record r { fields = kept; arguments = args })
  unfolding request_fields other_fields
  request_fields-other request [] kept args e = ground (arith, e)
  request_fields-other request (f ∷ fs) kept args {r} e =
      elim (Result-cases (request_field utf8 request f)) [
        | inr (x, bad) ↦ absurd (ground (arith, bad, e))
        | inl (next, good) ↦
            let rest = request_fields-other next fs kept args {r = r} (ground (arith, good, e)) in
            elim (Bool-cases (has_shape f 1 2)) [
              | inl argument ↦ rw argument (
                  ap (λ s. request_fields utf8 s (other_fields fs))
                    (sym (request_field-argument request f kept args argument good))
                  ∙ rest)
              | inr other ↦ rw (other, request_field-other request f kept args other good) rest
            ]
      ]

  -- A request that was read from a message of 64 MiB at most is written so that reading it gives
  -- the same request again, and leaves what follows.
  pub parse_delimited_request-write_request :
      (bytes rest : List ℕ) {r : WorkRequest}
      → length bytes ≤ max_message
      → parse_request utf8 bytes ≡ ok r
      → parse_delimited_request utf8 (write_request r ++ rest) ≡ ok (some r, rest)
  unfolding parse_delimited_request write_request parse_request
  parse_delimited_request-write_request bytes rest {r} small e =
      elim (Result-cases (message_fields bytes)) [
        | inr (x, bad) ↦ absurd (ground (arith, bad, e))
        | inl (fs, good) ↦
            let whole = (message_fields-IsWhole bytes good).0 in
            let read : request_fields utf8
                  (record { fields = fs; arguments = []; inputs = []; request_id = 0 }) fs
                ≡ ok r =
              ground (arith, good, e) in
            let same : raws r.fields ≡ bytes = ap raws (request_fields-fields _ fs read) ∙ whole in
            rw
              (
                same,
                write_varint-varint (length bytes) (omega (arith, small)),
                append_assoc,
                read_message-frame bytes rest small,
              )
              (ground (arith, e))
      ]
