-- ===== src/Prelude/Decimal.antt =====
-- `str(n)` of a natural number.
use Prim.Native.Nat.{ℕ, zero, suc, ◌+◌, ◌-◌, ◌*◌, ◌/◌, ◌%◌, ◌≤◌, ◌<◌}
use mathlib.Core.Path.{◌≡◌, refl, ap, sym, ◌∙◌}
use mathlib.Core.List.{[], ◌∷◌, ◌++◌}
use native.Mathlib.Omega.{arith}
use mathlib.Core.Bool.{Bool, true, false}
use rules_elide.Prelude.Tests.{ltb, if◌then◌else◌}
use rules_elide.Prelude.Lists.{All}
use rules_elide.Prelude.Text.{Text}

decimal_loop : ℕ → ℕ → Text
decimal_loop zero n = (48 + n) ∷ []
decimal_loop (suc fuel) n =
    let more = decimal_loop fuel (n / 10) ++ (48 + n % 10) ∷ [] in
    if ltb n 10 then (48 + n) ∷ [] else more

-- Each round divides by ten, so `n` rounds are more than enough.
unfoldable pub decimal : ℕ → Text
unfolding decimal_loop
decimal n = decimal_loop n n

-- The number that decimal digits stand for, from those before.
value : ℕ → Text → ℕ
value acc [] = acc
value acc (c ∷ s) = value (acc * 10 + (c - 48)) s

value-append : (acc : ℕ) (s : Text) (c : ℕ) → value acc (s ++ c ∷ []) ≡ value acc s * 10 + (c - 48)
unfolding value
value-append acc [] c = refl
value-append acc (d ∷ s) c = value-append (acc * 10 + (d - 48)) s c

value-decimal_loop : (fuel n : ℕ) → n ≤ fuel → value 0 (decimal_loop fuel n) ≡ n
unfolding decimal_loop
value-decimal_loop zero n h = unfold value in omega arith
value-decimal_loop (suc fuel) n h = ground (
  arith,
  value-append 0 (decimal_loop fuel (n / 10)) (48 + n % 10),
  value-decimal_loop fuel (n / 10),
  one_digit n,
)
  where
    one_digit : (n : ℕ) → value 0 ((48 + n) ∷ []) ≡ n
    one_digit n = unfold value in omega arith

-- Different numbers are written differently.
pub decimal_injective : (n m : ℕ) → decimal n ≡ decimal m → n ≡ m
unfolding decimal
decimal_injective n m e =
    sym (value-decimal_loop n n (omega arith))
    ∙ ap (value 0) e
    ∙ value-decimal_loop m m (omega arith)

All-snoc : (s : Text) (c : ℕ) → All (λ d. 48 ≤ d) s → 48 ≤ c → All (λ d. 48 ≤ d) (s ++ c ∷ [])
All-snoc [] c h k = (k, tt)
All-snoc (d ∷ s) c (h, hs) k = (h, All-snoc s c hs k)

decimal_loop-digits : (fuel n : ℕ) → All (λ d. 48 ≤ d) (decimal_loop fuel n)
unfolding decimal_loop
decimal_loop-digits zero n = (omega arith, tt)
decimal_loop-digits (suc fuel) n =
    digits_if (ltb n 10) ((48 + n) ∷ []) _ (omega arith, tt)
      (All-snoc (decimal_loop fuel (n / 10)) (48 + n % 10) (decimal_loop-digits fuel (n / 10))
        (omega arith))
  where
    digits_if :
        (b : Bool) (s t : Text)
        → All (λ d. 48 ≤ d) s
        → All (λ d. 48 ≤ d) t
        → All (λ d. 48 ≤ d) (if b then s else t)
    digits_if true s t h k = h
    digits_if false s t h k = k

-- Digits end where a character below them stands.
digits_end :
    (a b s t : Text) (x : ℕ)
    → x < 48
    → All (λ d. 48 ≤ d) a
    → All (λ d. 48 ≤ d) b
    → a ++ x ∷ s ≡ b ++ x ∷ t
    → a ≡ b
digits_end [] [] s t x low ha hb e = refl
digits_end [] (d ∷ b) s t x low ha (hd, hb) e = ground (arith, e)
digits_end (c ∷ a) [] s t x low (hc, ha) hb e = ground (arith, e)
digits_end (c ∷ a) (d ∷ b) s t x low (hc, ha) (hd, hb) e =
    let tail = digits_end a b s t x low ha hb (cc) in cc

-- A number is determined by a text that begins with it and goes on with no digit.
pub decimal_prefix :
    (n m x : ℕ) (s t : Text) → x < 48 → decimal n ++ x ∷ s ≡ decimal m ++ x ∷ t → n ≡ m
unfolding decimal
decimal_prefix n m x s t low e = decimal_injective n m (
    digits_end (decimal n) (decimal m) s t x low (decimal_loop-digits n n) (decimal_loop-digits m m)
      e)

unfoldable pub zeros : ℕ → Text
zeros zero = []
zeros (suc n) = b'0' ∷ zeros n

value-zeros : (k : ℕ) (s : Text) → value 0 (zeros k ++ s) ≡ value 0 s
unfolding zeros value
value-zeros zero s = refl
value-zeros (suc k) s = value-zeros k s

zeros-digits : (k : ℕ) (s : Text) → All (λ d. 48 ≤ d) s → All (λ d. 48 ≤ d) (zeros k ++ s)
unfolding zeros
zeros-digits zero s h = h
zeros-digits (suc k) s h = (omega arith, zeros-digits k s h)

-- A number behind zeros is determined by a text that begins with them and goes on with no digit.
pub zeros_prefix :
    (k l n m x : ℕ) (s t : Text)
    → x < 48
    → (zeros k ++ decimal n) ++ x ∷ s ≡ (zeros l ++ decimal m) ++ x ∷ t
    → n ≡ m
unfolding decimal
zeros_prefix k l n m x s t low e =
    let same =
      digits_end (zeros k ++ decimal n) (zeros l ++ decimal m) s t x low
        (zeros-digits k (decimal n) (decimal_loop-digits n n))
        (zeros-digits l (decimal m) (decimal_loop-digits m m)) e in
    sym (value-decimal_loop n n (omega arith))
    ∙ sym (value-zeros k (decimal n))
    ∙ ap (value 0) same
    ∙ value-zeros l (decimal m)
    ∙ value-decimal_loop m m (omega arith)
