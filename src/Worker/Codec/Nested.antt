-- ===== src/Worker/Codec/Nested.antt =====
-- `WorkerProtocol.field` and its groups: what a field is made of, and that it takes its own bytes only.
use rules_elide.Prelude.{
  ℕ, zero, suc, ◌==◌, ◌+◌, ◌-◌, ◌*◌, ◌/◌, ◌%◌, ◌≤◌, ◌≡◌, ◌∙◌, refl, ap, sym, true, false, List, [],
  ◌++◌, arith, append_assoc, length, length-append, take-append, ltb, Bool-cases, Result, ok,
  Result-cases, inl, inr,
}
use rules_elide.Worker.Codec.{
  CodecError, Field, Content, cursor_varint, parse_content, parse_field, parse_group, passed,
  tag_is_valid, field_of,
}
use rules_elide.Worker.Codec.Local.{Taken, TakesFront, cursor_varint_takes, content-Taken}

add-sub : (a b : ℕ) → a + b - b ≡ a
add-sub a b = omega arith

passed-append : (front left : List ℕ) → passed (front ++ left) left ≡ front
passed-append front left =
    rw (length-append front left, add-sub (length front) (length left)) (take-append front left)

-- A field from its parts.
pub parse_field-reads :
    (fuel depth tag : ℕ) (input at front left : List ℕ) (c : Content)
    → depth ≤ 100
    → cursor_varint input ≡ ok (tag, at)
    → tag_is_valid tag ≡ true
    → parse_content (parse_group fuel (depth + 1) (tag / 8)) (tag % 8) at ≡ ok (c, left)
    → input ≡ front ++ left
    → parse_field (suc fuel) depth input ≡ ok (field_of tag c front, left)
unfolding parse_field
parse_field-reads fuel depth tag input at front left c small key valid body split =
    ground (arith, key, valid, body, ap (λ i. passed i left) split ∙ passed-append front left)

-- The parts of a field.
pub record Parts (fuel depth : ℕ) (input : List ℕ) (x : Field) (left : List ℕ) : Type 0 where
  pub tag : ℕ
  pub at : List ℕ
  pub content : Content
  pub shallow : depth ≤ 100
  pub key : cursor_varint input ≡ ok (tag, at)
  pub valid : tag_is_valid tag ≡ true
  pub body :
      parse_content (parse_group fuel (depth + 1) (tag / 8)) (tag % 8) at ≡ ok (content, left)
  pub whole : x ≡ field_of tag content (passed input left)

pub parse_field-Parts :
    (fuel depth : ℕ) (input : List ℕ) {x : Field} {left : List ℕ}
    → parse_field (suc fuel) depth input ≡ ok (x, left)
    → Parts fuel depth input x left
unfolding parse_field
parse_field-Parts fuel depth input {x} {left} e = elim (Bool-cases (ltb 100 depth)) [
  | inl deep ↦ absurd (ground (arith, deep, e))
  | inr shallow ↦ elim (Result-cases (cursor_varint input)) [
    | inr (bad, key) ↦ absurd (ground (arith, shallow, key, e))
    | inl ((tag, at), key) ↦ elim (Bool-cases (tag_is_valid tag)) [
      | inr bad ↦ absurd (ground (arith, shallow, key, bad, e))
      | inl valid ↦
          elim (Result-cases
            (parse_content (parse_group fuel (depth + 1) (tag / 8)) (tag % 8) at)) [
              | inr (bad, body) ↦ absurd (ground (arith, shallow, key, valid, body, e))
              | inl ((content, left'), body) ↦
                  let same : ◌≡◌ {A = Result CodecError (Field × List ℕ)}
                      (ok (field_of tag content (passed input left'), left')) (ok (x, left)) =
                    ground (arith, shallow, key, valid, body, e) in
                  record {
                    tag = tag;
                    at = at;
                    content = content;
                    shallow = ground (arith, shallow);
                    key = key;
                    valid = valid;
                    body = ground (arith, body, same);
                    whole = ground (arith, same);
                  }
            ]
    ]
  ]
]

pub record FieldTaken (depth : ℕ) (input : List ℕ) (x : Field) (left : List ℕ) : Type 0 where
  pub taken : Taken 0 (λ g. parse_field g depth) input x left
  pub some_byte : 1 ≤ length taken.front
  pub raw_is_front : x.raw ≡ taken.front

module _ (depth tag : ℕ) (c : Content) (key body t : List ℕ) where
  parse_field-again :
      (g : ℕ)
      → 1 ≤ length key
      → depth ≤ 100
      → tag_is_valid tag ≡ true
      → cursor_varint (key ++ (body ++ t)) ≡ ok (tag, body ++ t)
      → ((g : ℕ)
          → 2 * length body + 1 ≤ g
          → parse_content (parse_group g (depth + 1) (tag / 8)) (tag % 8) (body ++ t) ≡ ok (c, t))
      → 2 * length (key ++ body) + 0 ≤ g
      → parse_field g depth ((key ++ body) ++ t) ≡ ok (field_of tag c (key ++ body), t)
  parse_field-again zero some_byte shallow valid e f h =
      absurd (omega (arith, length-append key body))
  parse_field-again (suc g) some_byte shallow valid e f h =
      parse_field-reads g depth tag _ (body ++ t) (key ++ body) t c shallow (rw append_assoc e)
        valid (f g (omega (arith, length-append key body))) refl

Parts-FieldTaken :
    (fuel depth : ℕ) (input : List ℕ) (x : Field) (left : List ℕ)
    → ((number : ℕ) → TakesFront (λ g. parse_group g (depth + 1) number) fuel)
    → Parts fuel depth input x left
    → FieldTaken depth input x left
Parts-FieldTaken fuel depth input x left groups parts =
    let key = cursor_varint_takes input parts.key in
    let body =
      content-Taken (λ g. parse_group g (depth + 1) (parts.tag / 8)) fuel (parts.tag % 8) parts.at
        (groups (parts.tag / 8)) parts.body in
    let front = key.0 ++ body.front in
    let split : input ≡ (key.0 ++ body.front) ++ left = rw (append_assoc, sym body.split) key.1 in
    let whole : x ≡ field_of parts.tag parts.content (key.0 ++ body.front) =
      parts.whole
      ∙ ap (λ r. field_of parts.tag parts.content r)
          (ap (λ i. passed i left) split ∙ passed-append front left) in
    record {
      taken = record {
        front = key.0 ++ body.front;
        split = split;
        again = λ g t h.
            parse_field-again depth parts.tag parts.content key.0 body.front t g key.2 parts.shallow
              parts.valid (key.3 (body.front ++ t)) (λ g. body.again g t) h
            ∙ ap (λ (f : Field). ok (f, t)) (sym whole);
      };
      some_byte = omega (arith, length-append key.0 body.front, key.2);
      raw_is_front = ap (λ (f : Field). f.raw) whole;
    }

-- A group from its first field.
module _ (depth number : ℕ) (nested : Field) (front t : List ℕ) where
  group-ends :
      (g : ℕ)
      → (nested.wire == 4) ≡ true
      → (nested.number == number) ≡ true
      → ((g : ℕ) → 2 * length front + 0 ≤ g → parse_field g depth (front ++ t) ≡ ok (nested, t))
      → 2 * length front + 1 ≤ g
      → parse_group g depth number (front ++ t) ≡ ok ((0, []), t)
  unfolding parse_field
  group-ends zero e n f h = absurd (omega arith)
  group-ends (suc g) e n f h = ground (arith, f g (omega arith), e, n)

  group-goes_on :
      (g : ℕ) (more : List ℕ) (c : Content)
      → (nested.wire == 4) ≡ false
      → 1 ≤ length front
      → ((g : ℕ)
          → 2 * length front + 0 ≤ g
          → parse_field g depth (front ++ (more ++ t)) ≡ ok (nested, more ++ t))
      → ((g : ℕ) → 2 * length more + 1 ≤ g → parse_group g depth number (more ++ t) ≡ ok (c, t))
      → 2 * length (front ++ more) + 1 ≤ g
      → parse_group g depth number ((front ++ more) ++ t) ≡ ok (c, t)
  unfolding parse_field
  group-goes_on zero more c e some_byte f k h = absurd (omega arith)
  group-goes_on (suc g) more c e some_byte f k h = rw append_assoc (
      ground (
        arith,
        f g (omega (arith, length-append front more)),
        k g (omega (arith, length-append front more)),
        e,
      ))

mutual
  unfolding parse_field

  pub field-FieldTaken :
      (fuel depth : ℕ) (input : List ℕ) (x : Field) (left : List ℕ)
      → parse_field fuel depth input ≡ ok (x, left)
      → FieldTaken depth input x left
  field-FieldTaken zero depth input x left e = absurd (ground (arith, e))
  field-FieldTaken (suc fuel) depth input x left e =
      Parts-FieldTaken fuel depth input x left (λ number. group-Taken fuel (depth + 1) number)
        (parse_field-Parts fuel depth input e)

  group-Taken : (fuel depth number : ℕ) → TakesFront (λ g. parse_group g depth number) fuel
  group-Taken zero depth number input c left e = absurd (ground (arith, e))
  group-Taken (suc fuel) depth number input c left e =
      elim (Result-cases (parse_field fuel depth input)) [
        | inr (x, bad) ↦ absurd (ground (arith, bad, e))
        | inl ((nested, left'), good) ↦
            let first = field-FieldTaken fuel depth input nested left' good in
            elim (Bool-cases (nested.wire == 4)) [
              | inl ends ↦ elim (Bool-cases (nested.number == number)) [
                | inr other ↦ absurd (ground (arith, good, ends, other, e))
                | inl same ↦
                    let result : ◌≡◌ {A = Result CodecError (Content × List ℕ)}
                        (ok ((0, []), left')) (ok (c, left)) =
                      ground (arith, good, ends, same, e) in
                    record {
                      front = first.taken.front;
                      split = ground (arith, first.taken.split, result);
                      again = λ g t h. ground (
                        arith,
                        group-ends depth number nested first.taken.front t g ends same
                            (λ g. first.taken.again g t) h,
                        result,
                      );
                    }
              ]
              | inr more ↦
                  let rest =
                    group-Taken fuel depth number left' c left (ground (arith, good, more, e)) in
                  record {
                    front = first.taken.front ++ rest.front;
                    split = rw (append_assoc, sym rest.split) first.taken.split;
                    again = λ g t h.
                        group-goes_on depth number nested first.taken.front t g rest.front c more
                          first.some_byte (λ g. first.taken.again g (rest.front ++ t))
                          (λ g. rest.again g t) h;
                  }
            ]
      ]
