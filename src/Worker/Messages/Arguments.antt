-- ===== src/Worker/Messages/Arguments.antt =====
-- `WorkRequest.withArguments`: the arguments of the new request, and what it keeps of the old one.
use rules_elide.Prelude.{
  ap, ◌∙◌, ℕ, ◌+◌, ◌*◌, ◌^◌, ◌<◌, ◌≡◌, ◌≢◌, ◌⊎◌, refl, sym, List, [], ◌∷◌, ◌++◌, arith, map, All,
  append_assoc, append-nil, length, Bool-cases, ok, Result-cases, some, inl, inr,
}
use rules_elide.Prelude.Text.{Text}
use rules_elide.Worker.Codec.{Field, message_fields}
use rules_elide.Worker.Codec.Message.{raws, IsWhole, message_fields-IsWhole, message_fields-raws}
use rules_elide.Worker.Messages.{
  Utf8, WorkRequest, has_shape, text, write_string, write_arguments, request_field, request_fields,
  parse_request, with_arguments, other_fields,
}
use rules_elide.Worker.Messages.Varint.{write_varint-varint}
use rules_elide.Worker.Messages.Forward.{request_fields-fields, request_fields-other}
use rules_elide.Wire.Fields.{field}
use rules_elide.Worker.Messages.Sized.{sized, sized-IsWhole}

raws-append : (xs ys : List Field) → raws (xs ++ ys) ≡ raws xs ++ raws ys
unfolding raws
raws-append [] ys = refl
raws-append (x ∷ xs) ys = rw (append_assoc, raws-append xs ys)

-- The second list is the first without its arguments, which are the fields of number 1 and wire
-- type 2.
pub data Others : List Field → List Field → Type 0 where
  done : Others [] []
  drop :
      (f : Field) {fs kept : List Field}
      → f.number ≡ 1
      → f.wire ≡ 2
      → Others fs kept
      → Others (f ∷ fs) kept
  keep :
      (f : Field) {fs kept : List Field}
      → ((f.number ≢ 1) ⊎ (f.wire ≢ 2))
      → Others fs kept
      → Others (f ∷ fs) (f ∷ kept)

other_fields-Others : (fs : List Field) → Others fs (other_fields fs)
unfolding other_fields
other_fields-Others [] = done
other_fields-Others (f ∷ fs) = elim (Bool-cases (has_shape f 1 2)) [
  | inl argument ↦
      rw argument
        (drop f (ground (arith, argument)) (ground (arith, argument)) (other_fields-Others fs))
  | inr other ↦ rw other (keep f (ground (arith, other)) (other_fields-Others fs))
]

other_fields-IsWhole : (fs : List Field) → All IsWhole fs → All IsWhole (other_fields fs)
unfolding other_fields
other_fields-IsWhole [] w = tt
other_fields-IsWhole (f ∷ fs) w = elim (Bool-cases (has_shape f 1 2)) [
  | inl argument ↦ rw argument (other_fields-IsWhole fs w.1)
  | inr other ↦ rw other (w.0, other_fields-IsWhole fs w.1)
]

pub All-append : (xs ys : List Field) → All IsWhole xs → All IsWhole ys → All IsWhole (xs ++ ys)
All-append [] ys w v = v
All-append (x ∷ xs) ys w v = (w.0, All-append xs ys w.1 v)

module _ (utf8 : Utf8) where
  open utf8 use {encode, decode}

  -- A text that the codec carries: Java texts have fewer than 2 ^ 31 bytes.
  pub record IsCarried (t : Text) : Type 0 where
    pub short : length (encode t) < 2 ^ 31
    pub decoded : decode (encode t) ≡ some t

  abbrev pub IsShort : Text → Type 0
  IsShort t = length (encode t) < 2 ^ 31

  IsCarried-IsShort : (args : List Text) → All IsCarried args → All IsShort args
  IsCarried-IsShort [] c = tt
  IsCarried-IsShort (t ∷ args) c = (c.0.short, IsCarried-IsShort args c.1)

  abbrev pub argument : Text → Field
  argument t = sized 1 (encode t)

  argument-IsWhole : (args : List Text) → All IsShort args → All IsWhole (map argument args)
  argument-IsWhole [] c = tt
  argument-IsWhole (t ∷ args) c = (
    sized-IsWhole 1 (encode t) (omega arith) (omega arith) (omega (arith, c.0)),
    argument-IsWhole args c.1,
  )

  pub write_string-field :
      (number : ℕ) (t : Text)
      → number < 2 ^ 29
      → length (encode t) < 2 ^ 31
      → write_string utf8 number t ≡ field number (encode t)
  unfolding write_string field
  write_string-field number t h short = rw (
    write_varint-varint (number * 8 + 2) (omega (arith, h)),
    write_varint-varint (length (encode t)) (omega (arith, short)),
  )

  add_argument :
      (request : WorkRequest) (t : Text)
      → decode (encode t) ≡ some t
      → request_field utf8 request (argument t)
        ≡ ok (record request { arguments = request.arguments ++ t ∷ [] })
  unfolding request_field text
  add_argument request t e = ground (arith, e)

  write_arguments-raws :
      (args : List Text) → All IsShort args → write_arguments utf8 args ≡ raws (map argument args)
  unfolding write_arguments write_string raws
  write_arguments-raws [] c = refl
  write_arguments-raws (t ∷ args) c =
      rw (write_string-field 1 t (omega arith) c.0, write_arguments-raws args c.1)

  -- The loop of the constructor on arguments alone.
  pub request_fields-arguments :
      (request : WorkRequest) (args : List Text) (rest : List Field)
      → All IsCarried args
      → request_fields utf8 request (map argument args ++ rest)
        ≡ request_fields utf8 (record request { arguments = request.arguments ++ args }) rest
  unfolding request_fields request_field text
  request_fields-arguments request [] rest c = rw append-nil
  request_fields-arguments request (t ∷ args) rest c = rw (
    add_argument request t c.0.decoded,
    request_fields-arguments (record request { arguments = request.arguments ++ t ∷ [] }) args rest
        c.1,
    append_assoc,
  )

  -- What a request that was read goes through, and the fields of the one that is made of it.
  pub with_arguments-fields :
      (bytes : List ℕ) (args : List Text) {r : WorkRequest}
      → All IsShort args
      → parse_request utf8 bytes ≡ ok r
      → (request_fields utf8
            (record { fields = r.fields; arguments = []; inputs = []; request_id = 0 })
            r.fields
          ≡ ok r)
        × (with_arguments utf8 args r
            ≡ request_fields utf8
                (record {
                  fields = map argument args ++ other_fields r.fields;
                  arguments = [];
                  inputs = [];
                  request_id = 0;
                })
                (map argument args ++ other_fields r.fields))
  unfolding with_arguments parse_request
  with_arguments-fields bytes args {r} c e = elim (Result-cases (message_fields bytes)) [
    | inr (x, bad) ↦ absurd (ground (arith, bad, e))
    | inl (fs, good) ↦
        let whole = (message_fields-IsWhole bytes good).1 in
        let read : request_fields utf8
              (record { fields = fs; arguments = []; inputs = []; request_id = 0 }) fs
            ≡ ok r =
          ground (arith, good, e) in
        let same : r.fields ≡ fs = request_fields-fields utf8 _ fs read in
        let all = map argument args ++ other_fields fs in
        let wholes : All IsWhole all =
          All-append (map argument args) (other_fields fs) (argument-IsWhole args c)
            (other_fields-IsWhole fs whole) in
        let again : message_fields (write_arguments utf8 args ++ raws (other_fields fs)) ≡ ok all =
          rw (write_arguments-raws args c, sym (raws-append (map argument args) (other_fields fs)))
            (message_fields-raws all wholes) in
        (
          ap
                (λ gs.
                  request_fields utf8
                    (record { fields = gs; arguments = []; inputs = []; request_id = 0 }) gs)
                same
              ∙ read,
          rw (same, again),
        )
  ]

  -- A request that was read takes any new arguments that the codec carries, in their order. Its
  -- inputs and its id stay as they were, and its fields are one for each new argument and then the
  -- fields that it had, less the arguments, in order.
  pub with_arguments-parse_request :
      (bytes : List ℕ) (args : List Text) {r : WorkRequest}
      → All IsCarried args
      → parse_request utf8 bytes ≡ ok r
      → (kept : List Field) × Others r.fields kept
        × (with_arguments utf8 args r
            ≡ ok (record r { arguments = args; fields = map argument args ++ kept }))
  with_arguments-parse_request bytes args {r} c e =
      let (read, made) = with_arguments-fields bytes args (IsCarried-IsShort args c) e in
      let all = map argument args ++ other_fields r.fields in
      (
        other_fields r.fields,
        other_fields-Others r.fields,
        made
            ∙ request_fields-arguments
                (record { fields = all; arguments = []; inputs = []; request_id = 0 }) args
                (other_fields r.fields) c
            ∙ request_fields-other utf8 _ r.fields all args read,
      )
