-- ===== src/Prelude/Bits.antt =====
-- Masks and disjoint unions of bits as arithmetic.
use Prim.Native.Nat.{
  ℕ, zero, suc, ◌+◌, ◌-◌, ◌*◌, ◌/◌, ◌%◌, ◌^◌, ◌≤◌, ◌<◌, min, max, bit_and, bit_or,
}
use Prim.Native.Nat.{digits, bit_and-bitwise, bit_or-bitwise}
use mathlib.Core.Path.{◌≡◌, refl, ap}
use native.Mathlib.Omega.{arith}
use native.Mathlib.Nat.{pow-suc, zero-add, suc-add}

-- One more unit of fuel does not change the digit recursion, nor do several.
module _ (stop : ℕ → ℕ) (join : ℕ → ℕ → ℕ) where
  spare_unit :
      (fuel x y : ℕ) → x ≤ fuel → digits stop join fuel x y ≡ digits stop join (suc fuel) x y
  spare_unit fuel zero y fits =
      elim fuel as (λ f. digits stop join f 0 y ≡ digits stop join (suc f) 0 y) [
        | zero ↦ refl
        | suc f ↦ refl
      ]
  spare_unit zero (suc x) y fits = elim fits [ ]
  spare_unit (suc fuel) (suc x) y fits =
      omega (arith, spare_unit fuel (suc x / 2) (y / 2) (omega arith))

  spare :
      (extra fuel x y : ℕ)
      → x ≤ fuel
      → digits stop join fuel x y ≡ digits stop join (extra + fuel) x y
  spare zero fuel x y fits = rw zero-add
  spare (suc extra) fuel x y fits =
      rw suc-add
        (omega (arith, spare extra fuel x y fits, spare_unit (extra + fuel) x y (omega arith)))

  -- The recursion on the halves, at the fuel that the recursion on `suc x` leaves it.
  halves :
      (x y : ℕ)
      → digits stop join x (suc x / 2) (y / 2) ≡ digits stop join (suc x / 2) (suc x / 2) (y / 2)
  halves x y =
      let whole : x - suc x / 2 + suc x / 2 ≡ x = omega arith in
      omega (
        arith,
        spare (x - suc x / 2) (suc x / 2) (suc x / 2) (y / 2) (omega arith),
        ap (λ (f : ℕ). digits stop join f (suc x / 2) (y / 2)) whole,
      )

or_of_zero : (y : ℕ) → bit_or 0 y ≡ y
or_of_zero y = bit_or-bitwise 0 y

-- The law of each operation for the lowest digit.
bit_or_digit : (x y : ℕ) → bit_or x y ≡ max (x % 2) (y % 2) + 2 * bit_or (x / 2) (y / 2)
bit_or_digit zero y = omega (arith, or_of_zero y, or_of_zero (y / 2))
bit_or_digit (suc x) y =
    let here = bit_or-bitwise (suc x) y in
    let below = bit_or-bitwise (suc x / 2) (y / 2) in
    omega (arith, here, below, halves (λ d. d) max x y)

bit_and_digit : (x y : ℕ) → bit_and x y ≡ min (x % 2) (y % 2) + 2 * bit_and (x / 2) (y / 2)
bit_and_digit zero y =
    let at : (d : ℕ) → bit_and 0 d ≡ 0 = λ d. bit_and-bitwise 0 d in omega (arith, at y, at (y / 2))
bit_and_digit (suc x) y =
    let here = bit_and-bitwise (suc x) y in
    let below = bit_and-bitwise (suc x / 2) (y / 2) in
    omega (arith, here, below, halves (λ d. zero) min x y)

no_bits : (bound x : ℕ) → x ≤ bound → bit_and x 0 ≡ 0
no_bits bound zero fits = refl
no_bits zero (suc x) fits = elim fits [ ]
no_bits (suc bound) (suc x) fits =
    let rest = no_bits bound (suc x / 2) (omega arith) in
    omega (arith, bit_and_digit (suc x) 0, rest)

-- A mask of one more bit takes one more step.
mask1 : (a : ℕ) → bit_and a 1 ≡ a % 2
mask1 a = omega (arith, bit_and_digit a 1, no_bits (a / 2) (a / 2) (omega arith))

mask2 : (a : ℕ) → bit_and a 3 ≡ a % 4
mask2 a = omega (arith, bit_and_digit a 3, mask1 (a / 2))

-- `a & 7`
pub bit_and_seven : (a : ℕ) → bit_and a 7 ≡ a % 8
bit_and_seven a = omega (arith, bit_and_digit a 7, mask2 (a / 2))

mask4 : (a : ℕ) → bit_and a 15 ≡ a % 16
mask4 a = omega (arith, bit_and_digit a 15, bit_and_seven (a / 2))

mask5 : (a : ℕ) → bit_and a 31 ≡ a % 32
mask5 a = omega (arith, bit_and_digit a 31, mask4 (a / 2))

mask6 : (a : ℕ) → bit_and a 63 ≡ a % 64
mask6 a = omega (arith, bit_and_digit a 63, mask5 (a / 2))

-- `a & 0x7f`
pub low_seven : (a : ℕ) → bit_and a 0x7f ≡ a % 128
low_seven a = omega (arith, bit_and_digit a 127, mask6 (a / 2))

shift_suc : (q k : ℕ) → q * 2 ^ suc k ≡ q * 2 ^ k * 2
shift_suc q k = omega (arith, ap (λ (t : ℕ). q * t) (pow-suc 2 k))

half_below : (k a : ℕ) → a < 2 ^ suc k → a / 2 < 2 ^ k
half_below k a h = omega (arith, pow-suc 2 k)

-- Bits below a shifted value do not meet it.
pub bit_or_shifted : (k a q : ℕ) → a < 2 ^ k → bit_or a (q * 2 ^ k) ≡ a + q * 2 ^ k
bit_or_shifted zero zero q h = omega (arith, or_of_zero (q * 2 ^ 0))
bit_or_shifted zero (suc a) q h = absurd (omega arith)
bit_or_shifted (suc k) a q h = ground (
  arith,
  bit_or_digit a (q * 2 ^ suc k),
  shift_suc q k,
  pow-suc 2 k,
  bit_or_shifted k (a / 2) q (half_below k a h),
)

-- `b | 0x80` on seven bits.
pub set_top_bit : (b : ℕ) → b < 128 → bit_or b 0x80 ≡ b + 128
set_top_bit b h = bit_or_shifted 7 b 1 h
