-- ===== src/Worker/Codec/Total.antt =====
-- The fuel of `fields` is enough: each round of a loop of `WorkerProtocol` takes a byte.
use rules_elide.Prelude.{
  ℕ, zero, suc, ◌+◌, ◌*◌, ◌/◌, ◌%◌, ◌^◌, ◌≤◌, ◌<◌, ◌≡◌, ◌≢◌, ap, List, [], ◌∷◌, arith, bit_and,
  bit_or, length, length-append, Result, ok, err, Result-cases, inl, inr,
}
use rules_elide.Worker.Codec.{
  CodecError, Field, Content, varint_rounds, cursor_varint, cursor_skip, parse_content, parse_field,
  parse_group, fields_rounds, message_fields, out_of_fuel,
}
use rules_elide.Worker.Codec.Local.{cursor_varint_takes}
use rules_elide.Worker.Codec.Nested.{field-FieldTaken}

varint_rounds-total :
    (rounds shift value : ℕ) (input : List ℕ)
    → varint_rounds rounds shift value input ≢ err out_of_fuel
unfolding varint_rounds
varint_rounds-total zero shift value input e = absurd (ground (arith, e))
varint_rounds-total (suc rounds) shift value [] e = absurd (ground (arith, e))
varint_rounds-total (suc rounds) shift value (b ∷ input) e = ground (
  arith,
  e,
  varint_rounds-total rounds (shift + 7) (bit_or value (bit_and b 127 * 2 ^ shift)) input,
)

cursor_varint-total : (input : List ℕ) → cursor_varint input ≢ err out_of_fuel
unfolding cursor_varint
cursor_varint-total input e = varint_rounds-total 10 0 0 input e

cursor_skip-total : (n : ℕ) (input : List ℕ) → cursor_skip n input ≢ err out_of_fuel
unfolding cursor_skip
cursor_skip-total n input e = ground (arith, e)

cursor_varint-shorter :
    (input : List ℕ) {n : ℕ} {left : List ℕ}
    → cursor_varint input ≡ ok (n, left)
    → length left < length input
cursor_varint-shorter input {n} {left} e =
    let taken = cursor_varint_takes input e in
    omega (arith, ap length taken.1, length-append taken.0 left, taken.2)

field-shorter :
    (fuel depth : ℕ) (input : List ℕ) {x : Field} {left : List ℕ}
    → parse_field fuel depth input ≡ ok (x, left)
    → length left < length input
field-shorter fuel depth input {x} {left} e =
    let f = field-FieldTaken fuel depth input x left e in
    omega (arith, ap length f.taken.split, length-append f.taken.front left, f.some_byte)

content-total :
    (group : List ℕ → Result CodecError (Content × List ℕ)) (wire : ℕ) (input : List ℕ)
    → group input ≢ err out_of_fuel
    → parse_content group wire input ≢ err out_of_fuel
unfolding parse_content
content-total group zero input h e = ground (arith, e, cursor_varint-total input)
content-total group (suc zero) input h e = ground (arith, e, cursor_skip-total 8 input)
content-total group (suc (suc zero)) input h e = elim (Result-cases (cursor_varint input)) [
  | inr (x, bad) ↦ ground (arith, e, bad, cursor_varint-total input)
  | inl ((n, at), good) ↦ ground (arith, e, good, cursor_skip-total n at)
]
content-total group (suc (suc (suc zero))) input h e = h e
content-total group (suc (suc (suc (suc zero)))) input h e = absurd (ground (arith, e))
content-total group (suc (suc (suc (suc (suc zero))))) input h e =
    ground (arith, e, cursor_skip-total 4 input)
content-total group (suc (suc (suc (suc (suc (suc wire)))))) input h e = absurd (ground (arith, e))

mutual
  unfolding parse_field

  field-total :
      (fuel depth : ℕ) (input : List ℕ)
      → 2 * length input + 1 ≤ fuel
      → parse_field fuel depth input ≢ err out_of_fuel
  field-total zero depth input h e = absurd (omega (arith, h))
  field-total (suc fuel) depth input h e = elim (Result-cases (cursor_varint input)) [
    | inr (x, bad) ↦ ground (arith, e, bad, cursor_varint-total input)
    | inl ((tag, at), good) ↦
        let group =
          group-total fuel (depth + 1) (tag / 8) at
            (omega (arith, h, cursor_varint-shorter input good)) in
        ground (
          arith,
          e,
          good,
          content-total (parse_group fuel (depth + 1) (tag / 8)) (tag % 8) at group,
        )
  ]

  group-total :
      (fuel depth number : ℕ) (input : List ℕ)
      → 2 * length input + 2 ≤ fuel
      → parse_group fuel depth number input ≢ err out_of_fuel
  group-total zero depth number input h e = absurd (omega (arith, h))
  group-total (suc fuel) depth number input h e =
      elim (Result-cases (parse_field fuel depth input)) [
        | inr (x, bad) ↦ ground (arith, e, bad, field-total fuel depth input (omega (arith, h)))
        | inl ((nested, left), good) ↦ ground (
          arith,
          e,
          good,
          group-total fuel depth number left
              (omega (arith, h, field-shorter fuel depth input good)),
        )
      ]

fields_rounds-total :
    (rounds : ℕ) (input : List ℕ)
    → length input ≤ rounds
    → fields_rounds rounds input ≢ err out_of_fuel
unfolding fields_rounds
fields_rounds-total zero [] h e = ground (arith, e)
fields_rounds-total zero (b ∷ input) h e = absurd (omega (arith, h))
fields_rounds-total (suc rounds) [] h e = ground (arith, e)
fields_rounds-total (suc rounds) (b ∷ input) h e =
    elim (Result-cases (parse_field (2 * length (b ∷ input) + 1) 0 (b ∷ input))) [
      | inr (x, bad) ↦
          ground
            (arith, e, bad, field-total (2 * length (b ∷ input) + 1) 0 (b ∷ input) (omega arith))
      | inl ((x, left), good) ↦ ground (
        arith,
        e,
        good,
        fields_rounds-total rounds left
            (omega (arith, h, field-shorter (2 * length (b ∷ input) + 1) 0 (b ∷ input) good)),
      )
    ]

-- Reading a message ends for every sequence of bytes, with the fields or with an error of the code.
pub message_fields-total : (input : List ℕ) → message_fields input ≢ err out_of_fuel
unfolding message_fields
message_fields-total input e = fields_rounds-total (length input) input (omega arith) e
