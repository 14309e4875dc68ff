-- ===== src/Wire/Fields.antt =====
-- benchmarks/pgo/gen_workrequest.py: `_field` and the generator `fields`, run to its end.
pub mod Laws
pub mod Numbers
use rules_elide.Prelude.{
  ℕ, zero, suc, ◌+◌, ◌-◌, ◌*◌, ◌/◌, bit_and, List, [], ◌∷◌, ◌++◌, Result, ok, err, ◌>>=◌, length,
  take, drop, ltb, ◌==◌, if◌then◌else◌,
}
use rules_elide.Wire.Varint.{
  WireError, truncated_field, unsupported_wire_type, out_of_fuel, varint, read_varint,
}

-- What a field carries: an `int`, or `bytes`.
pub data FieldValue : Type 0 where
  number : ℕ → FieldValue
  bytes : List ℕ → FieldValue

unfoldable pub field : ℕ → List ℕ → List ℕ
field n payload = varint (n * 8 + 2) ++ (varint (length payload) ++ payload)

-- `xs[first:end]`
abbrev pub slice : List ℕ → ℕ → ℕ → List ℕ
slice xs first end = take (end - first) (drop first xs)

-- One round, from the tag and the number that were read, with the offset behind the field.
field_value : List ℕ → ℕ → ℕ → ℕ → Result WireError (ℕ × FieldValue × ℕ)
field_value message tag value offset =
    if bit_and tag 7 == 2
    then (let end = offset + value in
        if ltb (length message) end
        then err truncated_field
        else ok (tag / 8, bytes (slice message offset end), end))
    else if bit_and tag 7 == 0
    then ok (tag / 8, number value, offset)
    else err unsupported_wire_type

unfoldable pub read_field : List ℕ → ℕ → Result WireError (ℕ × FieldValue × ℕ)
unfolding field_value
read_field message offset = do
  (tag, at_value) ← read_varint message offset
  (value, behind) ← read_varint message at_value
  field_value message tag value behind

-- `while offset < len(data)`
pub fields_loop : ℕ → List ℕ → ℕ → Result WireError (List (ℕ × FieldValue))
fields_loop zero message offset = if ltb offset (length message) then err out_of_fuel else ok []
fields_loop (suc fuel) message offset =
    let more = (do
      (n, value, next) ← read_field message offset
      rest ← fields_loop fuel message next
      ok ((n, value) ∷ rest)) in
    if ltb offset (length message) then more else ok []

-- Each round takes two bytes at least.
unfoldable pub fields : List ℕ → Result WireError (List (ℕ × FieldValue))
unfolding fields_loop
fields message = fields_loop (length message) message 0
