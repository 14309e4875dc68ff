-- ===== src/Wire/Fields/Laws.antt =====
-- The generator ends on every input, and reads back a field that `field` wrote.
use rules_elide.Prelude.{
  ℕ, zero, suc, ◌+◌, ◌-◌, ◌*◌, ◌^◌, ◌≤◌, ◌<◌, ◌≡◌, ◌≢◌, ap, List, [], ◌∷◌, ◌++◌, append_assoc,
  arith, ok, err, Result-cases, inl, inr, length, drop, length-append, length-drop, take-append,
  drop_behind,
}
use rules_elide.Prelude.Bits.{bit_and_seven}
use rules_elide.Wire.Varint.{out_of_fuel, varint, read_varint}
use rules_elide.Wire.Varint.Decode.{read_varint-varint, read_varint_bounds, read_varint-ne-fuel}
use rules_elide.Wire.Fields.{
  FieldValue, bytes, field, slice, field_value, read_field, fields_loop, fields,
}

-- The slice of a text that stands at `offset`.
pub slice_at :
    (message payload rest : List ℕ) (offset : ℕ)
    → offset ≤ length message
    → drop offset message ≡ payload ++ rest
    → (slice message offset (offset + length payload) ≡ payload)
      × (offset + length payload ≤ length message)
slice_at message payload rest offset h e = (
  rw (e, cancel offset (length payload)) (take-append payload rest),
  omega (arith, ap length e, length-drop offset message, length-append payload rest),
)
  where
    cancel : (a b : ℕ) → a + b - a ≡ b
    cancel a b = omega arith

field_value-bytes :
    (n offset : ℕ) (payload message rest : List ℕ)
    → offset ≤ length message
    → drop offset message ≡ payload ++ rest
    → field_value message (n * 8 + 2) (length payload) offset
      ≡ ok (n, bytes payload, offset + length payload)
unfolding field_value
field_value-bytes n offset payload message rest h e =
    let (part, room) = slice_at message payload rest offset h e in
    ground (arith, part, room, bit_and_seven (n * 8 + 2))

-- A field is read back whatever follows it.
pub read_field-field :
    (n offset : ℕ) (payload message rest : List ℕ)
    → n * 8 + 2 < 2 ^ 70
    → length payload < 2 ^ 70
    → drop offset message ≡ field n payload ++ rest
    → read_field message offset ≡ ok (n, bytes payload, offset + length (field n payload))
unfolding read_field field
read_field-field n offset payload message rest hn hp e =
    let tag = varint (n * 8 + 2) in
    let size = varint (length payload) in
    let at_tag : drop offset message ≡ tag ++ (size ++ (payload ++ rest)) =
      simp (append_assoc, e) in
    let tag_read =
      read_varint-varint (n * 8 + 2) offset message (size ++ (payload ++ rest)) hn at_tag in
    let at_size : drop (offset + length tag) message ≡ size ++ (payload ++ rest) =
      drop_behind offset message tag at_tag in
    let size_read =
      read_varint-varint (length payload) (offset + length tag) message (payload ++ rest) hp
        at_size in
    let at_payload : drop (offset + length tag + length size) message ≡ payload ++ rest =
      drop_behind (offset + length tag) message size at_size in
    let bounds = read_varint_bounds message (offset + length tag) (length payload) _ size_read in
    rw (tag_read, size_read, field_value-bytes n _ payload message rest bounds.2 at_payload)
      (ap (λ (next : ℕ). ok (n, bytes payload, next))
        (omega (arith, length-append tag (size ++ payload), length-append size payload)))

field_value_bounds :
    (message : List ℕ) (tag v offset n next : ℕ) (value : FieldValue)
    → offset ≤ length message
    → field_value message tag v offset ≡ ok (n, value, next)
    → (offset ≤ next) × (next ≤ length message)
unfolding field_value
field_value_bounds message tag v offset n next value h e = ground arith

-- A round that succeeds takes two bytes at least, and stays inside the message.
pub read_field_bounds :
    (message : List ℕ) (offset n next : ℕ) (value : FieldValue)
    → read_field message offset ≡ ok (n, value, next)
    → (offset + 2 ≤ next) × (next ≤ length message)
unfolding read_field
read_field_bounds message offset n next value e = elim (Result-cases (read_varint message offset)) [
  | inr (x, h) ↦ cc (h)
  | inl ((tag, at_value), h) ↦ elim (Result-cases (read_varint message at_value)) [
    | inr (x, k) ↦ cc (h, k)
    | inl ((v, behind), k) ↦ omega (
      arith,
      read_varint_bounds message offset tag at_value h,
      read_varint_bounds message at_value v behind k,
      field_value_bounds message tag v behind n next value
          (read_varint_bounds message at_value v behind k).2 (cc (h, k)),
    )
  ]
]

field_value-ne-fuel :
    (message : List ℕ) (tag v offset : ℕ) → field_value message tag v offset ≢ err out_of_fuel
unfolding field_value
field_value-ne-fuel message tag v offset e = ground arith

read_field-ne-fuel : (message : List ℕ) (offset : ℕ) → read_field message offset ≢ err out_of_fuel
unfolding read_field
read_field-ne-fuel message offset e = elim (Result-cases (read_varint message offset)) [
  | inr (x, h) ↦ read_varint-ne-fuel message offset (cc (h))
  | inl ((tag, at_value), h) ↦ elim (Result-cases (read_varint message at_value)) [
    | inr (x, k) ↦ read_varint-ne-fuel message at_value (cc (h, k))
    | inl ((v, behind), k) ↦ field_value-ne-fuel message tag v behind (cc (h, k))
  ]
]

fields_loop-ne-fuel :
    (fuel : ℕ) (message : List ℕ) (offset : ℕ)
    → length message ≤ offset + fuel
    → fields_loop fuel message offset ≢ err out_of_fuel
unfolding fields_loop
fields_loop-ne-fuel zero message offset h e = ground arith
fields_loop-ne-fuel (suc fuel) message offset h e =
    elim (Result-cases (read_field message offset)) [
      | inr (x, k) ↦ read_field-ne-fuel message offset (ground (arith, k))
      | inl ((n, value, next), k) ↦ ground (
        arith,
        k,
        read_field_bounds message offset n next value k,
        fields_loop-ne-fuel fuel message next,
      )
    ]

-- `fields` ends on every input, in a list of fields or in one of the program's errors.
pub fields-ne-fuel : (message : List ℕ) → fields message ≢ err out_of_fuel
unfolding fields
fields-ne-fuel message = fields_loop-ne-fuel (length message) message 0 (omega arith)

-- The fields one after the other.
unfoldable pub join_fields : List (ℕ × List ℕ) → List ℕ
join_fields [] = []
join_fields ((n, payload) ∷ rest) = field n payload ++ join_fields rest

-- A field whose two headers fit the ten bytes that a reader takes.
abbrev pub Fits : ℕ × List ℕ → Type 0
Fits (n, payload) = (n * 8 + 2 < 2 ^ 70) × (length payload < 2 ^ 70)

abbrev pub as_bytes : ℕ × List ℕ → ℕ × FieldValue
as_bytes (n, payload) = (n, bytes payload)

pub fields_loop_done :
    (fuel offset : ℕ) (message : List ℕ)
    → length message ≤ offset
    → fields_loop fuel message offset ≡ ok []
unfolding fields_loop
fields_loop_done zero offset message h = ground arith
fields_loop_done (suc fuel) offset message h = ground arith

pub fields_loop-step :
    (fuel offset n next : ℕ) (value : FieldValue) (message : List ℕ) (rest : List (ℕ × FieldValue))
    → offset < length message
    → read_field message offset ≡ ok (n, value, next)
    → fields_loop fuel message next ≡ ok rest
    → fields_loop (suc fuel) message offset ≡ ok ((n, value) ∷ rest)
unfolding fields_loop
fields_loop-step fuel offset n next value message rest h e f = ground (arith, e, f)
