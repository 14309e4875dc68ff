-- ===== src/Wire/Varint/Decode.antt =====
-- What `read_varint` makes of any input: the round trip, truncation and the bounds of a result.
use rules_elide.Prelude.{
  ℕ, zero, suc, ◌+◌, ◌*◌, ◌/◌, ◌%◌, ◌^◌, ◌≤◌, ◌<◌, ◌≡◌, ◌≢◌, ap, bit_and, bit_or, List, [], ◌∷◌,
  ◌++◌, arith, ok, err, length, drop, get_elem?-drop, get_elem?, get_elem?-drop_nil, append-ne-nil,
  Option-cases, some, none, ltb, if◌then◌else◌, inl, inr, get_elem?-lt, drop_behind,
}
use rules_elide.Prelude.Bits.{low_seven, bit_or_shifted}
use rules_elide.Wire.Varint.{varint, read_loop, read_varint, truncated_varint, out_of_fuel}
use rules_elide.Wire.Varint.Encode.{groups, varint-groups}
use native.Mathlib.Nat.{div-add-mod, pow-le-pow_right}
use native.Mathlib.Numerals.{towards_suc}

shift_seven : (s : ℕ) → 2 ^ (s + 7) ≡ 128 * 2 ^ s
shift_seven s = simp towards_suc (omega arith)

group_fits :
    (value g low high : ℕ) → g < 128 → value < low → high ≡ 128 * low → value + g * low < high
group_fits value g low high hg hv e = grind arith

-- Adding a group of seven bits above `shift` keeps the value below the next shift.
pub add_group :
    (value b shift : ℕ)
    → value < 2 ^ shift
    → (bit_or value (bit_and b 127 * 2 ^ shift) ≡ value + b % 128 * 2 ^ shift)
      × (value + b % 128 * 2 ^ shift < 2 ^ (shift + 7))
add_group value b shift h = (
  rw low_seven (bit_or_shifted shift value (b % 128) h),
  group_fits value (b % 128) (2 ^ shift) (2 ^ (shift + 7)) (omega arith) h (shift_seven shift),
)

pub split_group : (n s : ℕ) → n * 2 ^ s ≡ n % 128 * 2 ^ s + n / 128 * 2 ^ (s + 7)
split_group n s = omega (
  arith,
  ap (λ (t : ℕ). t * 2 ^ s) (div-add-mod n 128),
  ap (λ (t : ℕ). n / 128 * t) (shift_seven s),
)

-- One round of the loop, in plain arithmetic.
read_loop-step :
    (rounds shift value b offset : ℕ) (bytes : List ℕ)
    → value < 2 ^ shift
    → get_elem? bytes offset ≡ some b
    → read_loop (suc rounds) shift value bytes offset ≡ (
        let value' = value + b % 128 * 2 ^ shift in
        if ltb b 128
        then ok (value', offset + 1)
        else read_loop rounds (shift + 7) value' bytes (offset + 1))
unfolding read_loop
read_loop-step rounds shift value b offset bytes hv e =
    ground (arith, e, add_group value b shift hv)

pub read_loop_code :
    (rounds shift value b offset : ℕ) (bytes : List ℕ)
    → get_elem? bytes offset ≡ some b
    → read_loop (suc rounds) shift value bytes offset ≡ (
        let value' = bit_or value (bit_and b 127 * 2 ^ shift) in
        if ltb b 128
        then ok (value', offset + 1)
        else read_loop rounds (shift + 7) value' bytes (offset + 1))
unfolding read_loop
read_loop_code rounds shift value b offset bytes e = rw (e, read_loop)

pub read_loop-end :
    (rounds shift value offset : ℕ) (bytes : List ℕ)
    → get_elem? bytes offset ≡ none
    → read_loop (suc rounds) shift value bytes offset ≡ err truncated_varint
unfolding read_loop
read_loop-end rounds shift value offset bytes e = ground (arith, e)

last_byte :
    (rounds shift value b offset : ℕ) (bytes rest : List ℕ)
    → value < 2 ^ shift
    → b < 128
    → drop offset bytes ≡ b ∷ rest
    → read_loop (suc rounds) shift value bytes offset ≡ ok (value + b * 2 ^ shift, offset + 1)
last_byte rounds shift value b offset bytes rest hv hb e =
    rw (read_loop-step rounds shift value b offset bytes hv (get_elem?-drop bytes offset e))
      (ground arith)

inner_byte :
    (rounds shift value g offset : ℕ) (bytes rest : List ℕ)
    → value < 2 ^ shift
    → g < 128
    → drop offset bytes ≡ (g + 128) ∷ rest
    → read_loop (suc rounds) shift value bytes offset
      ≡ read_loop rounds (shift + 7) (value + g * 2 ^ shift) bytes (offset + 1)
inner_byte rounds shift value g offset bytes rest hv hg e =
    rw (read_loop-step rounds shift value (g + 128) offset bytes hv (get_elem?-drop bytes offset e))
      (ground arith)

-- `n` is what is still to be read, and it counts from bit `shift` on.
read_loop-groups :
    (k rounds shift value n offset : ℕ) (bytes rest : List ℕ)
    → k < rounds
    → n < 128 ^ suc k
    → value < 2 ^ shift
    → drop offset bytes ≡ groups k n ++ rest
    → read_loop rounds shift value bytes offset
      ≡ ok (value + n * 2 ^ shift, offset + length (groups k n))
unfolding groups
read_loop-groups k zero shift value n offset bytes rest hk hn hv e = absurd (omega arith)
read_loop-groups zero (suc rounds) shift value n offset bytes rest hk hn hv e =
    last_byte rounds shift value n offset bytes rest hv (omega arith) e
read_loop-groups (suc k) (suc rounds) shift value n offset bytes rest hk hn hv e = ground (
  arith,
  last_byte rounds shift value n offset bytes rest hv,
  inner_byte rounds shift value (n % 128) offset bytes (groups k (n / 128) ++ rest) hv
      (omega arith),
  split_group n shift,
  add_group value n shift hv,
  low_seven n,
  drop_behind offset bytes ((n % 128 + 128) ∷ []) {rest = groups k (n / 128) ++ rest},
  read_loop-groups k rounds (shift + 7) (value + n % 128 * 2 ^ shift) (n / 128) (offset + 1) bytes
      rest,
)

-- `read_varint` reads back what `varint` wrote, at any offset and whatever follows it.
pub read_varint-varint :
    (n offset : ℕ) (bytes rest : List ℕ)
    → n < 2 ^ 70
    → drop offset bytes ≡ varint n ++ rest
    → read_varint bytes offset ≡ ok (n, offset + length (varint n))
unfolding read_varint
read_varint-varint n offset bytes rest h e =
    rw (varint-groups 9 n h)
      (ground (arith, read_loop-groups 9 10 0 0 n offset bytes rest, varint-groups 9 n h))

read_loop_cut :
    (k rounds shift value n offset x : ℕ) (bytes front back : List ℕ)
    → k < rounds
    → n < 128 ^ suc k
    → value < 2 ^ shift
    → groups k n ≡ front ++ x ∷ back
    → drop offset bytes ≡ front
    → read_loop rounds shift value bytes offset ≡ err truncated_varint
unfolding groups
read_loop_cut k zero shift value n offset x bytes front back hk hn hv e f = absurd (omega arith)
read_loop_cut k (suc rounds) shift value n offset x bytes [] back hk hn hv e f =
    read_loop-end rounds shift value offset bytes (get_elem?-drop_nil bytes offset f)
read_loop_cut zero (suc rounds) shift value n offset x bytes (y ∷ front) back hk hn hv e f =
    absurd (ground (arith, append-ne-nil front back x))
read_loop_cut (suc k) (suc rounds) shift value n offset x bytes (y ∷ front) back hk hn hv e f =
    ground (
      arith,
      append-ne-nil front back x,
      inner_byte rounds shift value (n % 128) offset bytes front hv (omega arith),
      add_group value n shift hv,
      low_seven n,
      drop_behind offset bytes ((n % 128 + 128) ∷ []) {rest = front},
      read_loop_cut k rounds (shift + 7) (value + n % 128 * 2 ^ shift) (n / 128) (offset + 1) x
          bytes front back,
    )

-- Where the input ends inside what `varint` wrote, reading there reports it as truncated.
pub read_varint_cut :
    (n offset x : ℕ) (bytes front back : List ℕ)
    → n < 2 ^ 70
    → varint n ≡ front ++ x ∷ back
    → drop offset bytes ≡ front
    → read_varint bytes offset ≡ err truncated_varint
unfolding read_varint
read_varint_cut n offset x bytes front back h e f =
    read_loop_cut 9 10 0 0 n offset x bytes front back (omega arith) h (omega arith)
      (cc (varint-groups 9 n h)) f

power_grows : (s k : ℕ) → 2 ^ (s + 7) ≤ 2 ^ (s + 7 * suc k)
power_grows s k = pow-le-pow_right (omega arith) (omega arith)

regroup : (s k : ℕ) → 2 ^ (s + 7 * suc k) ≡ 2 ^ (s + 7 + 7 * k)
regroup s k = ap (λ (t : ℕ). 2 ^ t) (omega arith)

read_loop_bounds :
    (rounds shift value offset v next : ℕ) (bytes : List ℕ)
    → value < 2 ^ shift
    → read_loop rounds shift value bytes offset ≡ ok (v, next)
    → (v < 2 ^ (shift + 7 * rounds))
      × (offset < next)
      × (next ≤ length bytes)
      × (next ≤ offset + rounds)
read_loop_bounds zero shift value offset v next bytes hv e = unfold read_loop in cc
read_loop_bounds (suc rounds) shift value offset v next bytes hv e =
    elim (Option-cases (get_elem? bytes offset)) [
      | inl h ↦ cc (read_loop-end rounds shift value offset bytes h)
      | inr (b, h) ↦ ground (
        arith,
        read_loop-step rounds shift value b offset bytes hv h,
        get_elem?-lt bytes offset h,
        add_group value b shift hv,
        power_grows shift rounds,
        regroup shift rounds,
        read_loop_bounds rounds (shift + 7) (value + b % 128 * 2 ^ shift) (offset + 1) v next bytes,
      )
    ]

-- A number that `read_varint` returns fits 70 bits, and it took 1 to 10 bytes of the input.
pub read_varint_bounds :
    (bytes : List ℕ) (offset v next : ℕ)
    → read_varint bytes offset ≡ ok (v, next)
    → (v < 2 ^ 70) × (offset < next) × (next ≤ length bytes) × (next ≤ offset + 10)
unfolding read_varint
read_varint_bounds bytes offset v next e =
    read_loop_bounds 10 0 0 offset v next bytes (omega arith) e

read_loop-ne-fuel :
    (rounds shift value offset : ℕ) (bytes : List ℕ)
    → read_loop rounds shift value bytes offset ≢ err out_of_fuel
unfolding read_loop
read_loop-ne-fuel zero shift value offset bytes e = cc
read_loop-ne-fuel (suc rounds) shift value offset bytes e =
    elim (Option-cases (get_elem? bytes offset)) [
      | inl h ↦ cc (h)
      | inr (b, h) ↦ ground (
        arith,
        h,
        read_loop-ne-fuel rounds (shift + 7) (bit_or value (bit_and b 127 * 2 ^ shift)) (offset + 1)
            bytes,
      )
    ]

pub read_varint-ne-fuel : (bytes : List ℕ) (offset : ℕ) → read_varint bytes offset ≢ err out_of_fuel
unfolding read_varint
read_varint-ne-fuel bytes offset = read_loop-ne-fuel 10 0 0 offset bytes
