-- ===== src/Worker/Messages/Identity.antt =====
-- A request keeps its id under `withArguments`, whatever the codec makes of the arguments.
use rules_elide.Prelude.{
  ℕ, ◌^◌, ◌<◌, ◌≡◌, ◌∙◌, sym, List, [], ◌∷◌, ◌++◌, arith, map, All, ok, Result-cases, inl, inr,
}
use rules_elide.Prelude.Text.{Text}
use rules_elide.Worker.Codec.{Field, message_fields}
use rules_elide.Worker.Messages.{
  Utf8, WorkRequest, text, request_field, request_fields, parse_request, with_arguments,
  other_fields,
}
use rules_elide.Worker.Messages.Forward.{request_fields-other}
use rules_elide.Worker.Messages.Arguments.{IsShort, argument, with_arguments-fields}

module _ (utf8 : Utf8) where
  open utf8 use {encode}

  -- Arguments change the arguments only.
  request_fields-passes :
      (request : WorkRequest) (args : List Text) (rest : List Field) {sent : WorkRequest}
      → request_fields utf8 request (map (argument utf8) args ++ rest) ≡ ok sent
      → (heard : List Text) × (request_fields utf8 (record request { arguments = heard }) rest
          ≡ ok sent)
  unfolding request_fields request_field
  request_fields-passes request [] rest e = (request.arguments, e)
  request_fields-passes request (t ∷ args) rest {sent} e =
      elim (Result-cases (text utf8 (encode t))) [
        | inr (x, bad) ↦ absurd (ground (arith, bad, e))
        | inl (u, good) ↦
            request_fields-passes (record request { arguments = request.arguments ++ u ∷ [] }) args
              rest {sent = sent} (ground (arith, good, e))
      ]

  pub with_arguments-request_id :
      (bytes : List ℕ) (args : List Text) {r sent : WorkRequest}
      → All (IsShort utf8) args
      → parse_request utf8 bytes ≡ ok r
      → with_arguments utf8 args r ≡ ok sent
      → sent.request_id ≡ r.request_id
  with_arguments-request_id bytes args {r} {sent} short e f =
      let (read, made) = with_arguments-fields utf8 bytes args short e in
      let all = map (argument utf8) args ++ other_fields r.fields in
      let (heard, rest) =
        request_fields-passes (record { fields = all; arguments = []; inputs = []; request_id = 0 })
          args (other_fields r.fields) {sent = sent} (sym made ∙ f) in
      let other = request_fields-other utf8 _ r.fields all heard read in ground (arith, rest, other)

  request_field-request_id :
      (request : WorkRequest) (f : Field) {r : WorkRequest}
      → request.request_id < 2 ^ 32
      → request_field utf8 request f ≡ ok r
      → r.request_id < 2 ^ 32
  unfolding request_field
  request_field-request_id request f h e = ground (arith, e, h)

  request_fields-request_id :
      (request : WorkRequest) (fs : List Field) {r : WorkRequest}
      → request.request_id < 2 ^ 32
      → request_fields utf8 request fs ≡ ok r
      → r.request_id < 2 ^ 32
  unfolding request_fields
  request_fields-request_id request [] h e = ground (arith, e, h)
  request_fields-request_id request (f ∷ fs) {r} h e =
      elim (Result-cases (request_field utf8 request f)) [
        | inr (x, bad) ↦ absurd (ground (arith, bad, e))
        | inl (next, good) ↦
            request_fields-request_id next fs {r = r} (request_field-request_id request f h good)
              (ground (arith, good, e))
      ]

  pub parse_request-request_id :
      (bytes : List ℕ) {r : WorkRequest} → parse_request utf8 bytes ≡ ok r → r.request_id < 2 ^ 32
  unfolding parse_request
  parse_request-request_id bytes {r} e = elim (Result-cases (message_fields bytes)) [
    | inr (x, bad) ↦ absurd (ground (arith, bad, e))
    | inl (fs, good) ↦
        request_fields-request_id
          (record { fields = fs; arguments = []; inputs = []; request_id = 0 }) fs {r = r}
          (omega arith) (ground (arith, good, e))
  ]
