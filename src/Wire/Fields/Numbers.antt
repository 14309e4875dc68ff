-- ===== src/Wire/Fields/Numbers.antt =====
-- `fields` on a message of both kinds of field, as other writers of the protocol send them.
use rules_elide.Prelude.{
  ℕ, zero, suc, ◌+◌, ◌*◌, ◌^◌, ◌≤◌, ◌<◌, ◌≡◌, refl, ap, List, map, [], ◌∷◌, ◌++◌, append_assoc,
  arith, ok, length, drop, All, length-append, length-drop, drop_behind,
}
use rules_elide.Prelude.Bits.{bit_and_seven}
use rules_elide.Wire.Varint.{varint}
use rules_elide.Wire.Varint.Decode.{read_varint-varint}
use rules_elide.Wire.Fields.{
  FieldValue, number, bytes, field, field_value, read_field, fields_loop, fields,
}
use rules_elide.Wire.Fields.Laws.{
  read_field-field, read_field_bounds, fields_loop_done, fields_loop-step, join_fields, Fits,
  as_bytes,
}

-- A field that carries a number.
unfoldable pub number_field : ℕ → ℕ → List ℕ
number_field n value = varint (n * 8) ++ varint value

unfoldable pub written : ℕ × FieldValue → List ℕ
written (n, number value) = number_field n value
written (n, bytes payload) = field n payload

unfoldable pub join_written : List (ℕ × FieldValue) → List ℕ
join_written [] = []
join_written (f ∷ fs) = written f ++ join_written fs

-- A field whose two headers fit the ten bytes that a reader takes.
abbrev pub IsReadable : ℕ × FieldValue → Type 0
IsReadable (n, number value) = (n * 8 < 2 ^ 70) × (value < 2 ^ 70)
IsReadable (n, bytes payload) = (n * 8 + 2 < 2 ^ 70) × (length payload < 2 ^ 70)

field_value-number :
    (n value offset : ℕ) (message : List ℕ)
    → field_value message (n * 8) value offset ≡ ok (n, number value, offset)
unfolding field_value
field_value-number n value offset message = ground (arith, bit_and_seven (n * 8))

read_field-number :
    (n value offset : ℕ) (message rest : List ℕ)
    → n * 8 < 2 ^ 70
    → value < 2 ^ 70
    → drop offset message ≡ number_field n value ++ rest
    → read_field message offset ≡ ok (n, number value, offset + length (number_field n value))
unfolding read_field number_field
read_field-number n value offset message rest hn hv e =
    let tag = varint (n * 8) in
    let at_tag : drop offset message ≡ tag ++ (varint value ++ rest) = simp (append_assoc, e) in
    let tag_read = read_varint-varint (n * 8) offset message (varint value ++ rest) hn at_tag in
    let at_value = drop_behind offset message tag at_tag in
    let value_read = read_varint-varint value (offset + length tag) message rest hv at_value in
    rw
      (
        tag_read,
        value_read,
        field_value-number n value (offset + length tag + length (varint value)) message,
      )
      (ap (λ (next : ℕ). ok (n, number value, next))
        (omega (arith, length-append tag (varint value))))

read_field-written :
    (f : ℕ × FieldValue) (offset : ℕ) (message rest : List ℕ)
    → IsReadable f
    → drop offset message ≡ written f ++ rest
    → read_field message offset ≡ ok (f.0, f.1, offset + length (written f))
unfolding written
read_field-written (n, number value) offset message rest fit e =
    read_field-number n value offset message rest fit.0 fit.1 e
read_field-written (n, bytes payload) offset message rest fit e =
    read_field-field n offset payload message rest fit.0 fit.1 e

fields_loop-join_written :
    (fs : List (ℕ × FieldValue)) (fuel offset : ℕ) (message : List ℕ)
    → All IsReadable fs
    → offset ≤ length message
    → length message ≤ offset + fuel
    → drop offset message ≡ join_written fs
    → fields_loop fuel message offset ≡ ok fs
unfolding join_written
fields_loop-join_written [] fuel offset message fit inside enough e =
    fields_loop_done fuel offset message (omega (arith, ap length e, length-drop offset message))
fields_loop-join_written (f ∷ fs) zero offset message (fit, fits) inside enough e = absurd (
    omega (
      arith,
      read_field_bounds message offset f.0 _ f.1
          (read_field-written f offset message (join_written fs) fit e),
    ))
fields_loop-join_written (f ∷ fs) (suc fuel) offset message (fit, fits) inside enough e =
    let read = read_field-written f offset message (join_written fs) fit e in
    let bounds = read_field_bounds message offset f.0 _ f.1 read in
    fields_loop-step fuel offset f.0 _ f.1 message _ (omega (arith, bounds)) read (
      fields_loop-join_written fs fuel _ message fits bounds.1 (omega (arith, bounds))
        (drop_behind offset message (written f) e))

-- `fields` reads back any fields of either kind, written one after the other.
pub fields-join_written :
    (fs : List (ℕ × FieldValue)) → All IsReadable fs → fields (join_written fs) ≡ ok fs
unfolding fields
fields-join_written fs fit =
    fields_loop-join_written fs _ 0 (join_written fs) fit (omega arith) (omega arith) refl

join_fields-written : (fs : List (ℕ × List ℕ)) → join_fields fs ≡ join_written (map as_bytes fs)
unfolding join_fields join_written written
join_fields-written [] = refl
join_fields-written ((n, payload) ∷ fs) = ap (λ t. field n payload ++ t) (join_fields-written fs)

as_bytes-IsReadable : (fs : List (ℕ × List ℕ)) → All Fits fs → All IsReadable (map as_bytes fs)
as_bytes-IsReadable [] fit = tt
as_bytes-IsReadable (f ∷ fs) fit = (fit.0, as_bytes-IsReadable fs fit.1)

pub fields-join_fields :
    (fs : List (ℕ × List ℕ)) → All Fits fs → fields (join_fields fs) ≡ ok (map as_bytes fs)
fields-join_fields fs fit =
    rw (join_fields-written fs) (fields-join_written (map as_bytes fs) (as_bytes-IsReadable fs fit))
