-- ===== src/Prelude/Lists.antt =====
-- Lists measured and indexed by native numbers, under the library's names.
use Prim.Native.Nat.{ℕ, zero, suc, ◌+◌, ◌-◌, ◌≤◌, ◌<◌, min}
use mathlib.Core.Path.{◌≡◌, refl, ap, sym, subst}
use mathlib.Core.Logic.{◌⊎◌, inl, inr}
use mathlib.Core.List.{List, [], ◌∷◌, ◌++◌, Mem, mem-cons, not-mem-nil}
use mathlib.Core.Logic.Or
use mathlib.Core.Option.{Option, none, some}
use native.Mathlib.Omega.{arith}
use native.Mathlib.Nat.{zero-add, suc-add}
use native.Mathlib.Numerals.{unary_clauses}

module _ {ℓ} {A : Type ℓ} where
  abbrev pub length : List A → ℕ
  length [] = 0
  length (x ∷ xs) = suc (length xs)

  abbrev pub get_elem? : List A → ℕ → Option A
  get_elem? [] i = none
  get_elem? (x ∷ xs) zero = some x
  get_elem? (x ∷ xs) (suc i) = get_elem? xs i

  abbrev pub take : ℕ → List A → List A
  take zero xs = []
  take (suc n) [] = []
  take (suc n) (x ∷ xs) = x ∷ take n xs

  abbrev pub drop : ℕ → List A → List A
  drop zero xs = xs
  drop (suc n) [] = []
  drop (suc n) (x ∷ xs) = drop n xs

  abbrev pub All {κ} : (A → Type κ) → List A → Type κ
  All P [] = Unit {κ}
  All P (x ∷ xs) = P x × All P xs

  -- What holds of all elements holds of each one.
  pub All-mem {κ} :
      {P : A → Type κ}
      → ((x : A) → IsProp (P x))
      → (x : A) (xs : List A) → All P xs
      → Mem x xs
      → P x
  All-mem prop x [] h m = absurd (not-mem-nil m)
  All-mem {P = P} prop x (y ∷ ys) (h, hs) m =
      Or.elim (prop x) (mem-cons.0 m) (λ e. subst P (sym e) h) (All-mem prop x ys hs)

  pub List-cases : (xs : List A) → (xs ≡ []) ⊎ ((y : A) × (ys : List A) × (xs ≡ y ∷ ys))
  List-cases [] = inl refl
  List-cases (y ∷ ys) = inr (y, ys, refl)

  pub length-append : (xs ys : List A) → length (xs ++ ys) ≡ length xs + length ys
  length-append [] ys = omega arith
  length-append (x ∷ xs) ys = omega (arith, length-append xs ys)

  pub get_elem?-append : (xs ys : List A) → get_elem? (xs ++ ys) (length xs) ≡ get_elem? ys 0
  get_elem?-append [] ys = refl
  get_elem?-append (x ∷ xs) ys = get_elem?-append xs ys

  pub get_elem?-none : (xs : List A) (i : ℕ) → length xs ≤ i → get_elem? xs i ≡ none
  get_elem?-none [] i h = refl
  get_elem?-none (x ∷ xs) zero h = absurd (omega arith)
  get_elem?-none (x ∷ xs) (suc i) h = get_elem?-none xs i (omega arith)

  pub get_elem?-lt : (xs : List A) (i : ℕ) {x : A} → get_elem? xs i ≡ some x → i < length xs
  get_elem?-lt [] i e = absurd (ground arith)
  get_elem?-lt (x ∷ xs) zero e = omega arith
  get_elem?-lt (x ∷ xs) (suc i) e = omega (arith, get_elem?-lt xs i e)

  pub drop-append : (xs ys : List A) → drop (length xs) (xs ++ ys) ≡ ys
  drop-append [] ys = refl
  drop-append (x ∷ xs) ys = drop-append xs ys

  pub take-append : (xs ys : List A) → take (length xs) (xs ++ ys) ≡ xs
  take-append [] ys = refl
  take-append (x ∷ xs) ys = ap (λ t. x ∷ t) (take-append xs ys)

  pub length-take : (n : ℕ) (xs : List A) → length (take n xs) ≡ min n (length xs)
  length-take zero xs = omega arith
  length-take (suc n) [] = omega arith
  length-take (suc n) (x ∷ xs) = omega (arith, length-take n xs)

  pub length-drop : (n : ℕ) (xs : List A) → length (drop n xs) ≡ length xs - n
  length-drop zero xs = omega arith
  length-drop (suc n) [] = omega arith
  length-drop (suc n) (x ∷ xs) = omega (arith, length-drop n xs)

  -- Where the list from `i` on begins with `x`, that is element `i`.
  pub get_elem?-drop :
      (xs : List A) (i : ℕ) {x : A} {rest : List A} → drop i xs ≡ x ∷ rest → get_elem? xs i ≡ some x
  get_elem?-drop [] zero e = cc
  get_elem?-drop [] (suc i) e = cc
  get_elem?-drop (y ∷ xs) zero e = cc
  get_elem?-drop (y ∷ xs) (suc i) e = get_elem?-drop xs i e

  pub drop-drop : (m n : ℕ) (xs : List A) → drop (m + n) xs ≡ drop n (drop m xs)
  drop-drop zero n xs = rw zero-add
  drop-drop (suc m) zero [] = simp unary_clauses
  drop-drop (suc m) (suc n) [] = simp unary_clauses
  drop-drop (suc m) n (x ∷ xs) = simp (suc-add, drop-drop m n xs)

  pub drop_behind :
      (i : ℕ) (bytes xs : List A) {rest : List A}
      → drop i bytes ≡ xs ++ rest
      → drop (i + length xs) bytes ≡ rest
  drop_behind i bytes xs {rest} e = rw (drop-drop i (length xs) bytes, e) (drop-append xs rest)

  pub get_elem?-drop_nil : (xs : List A) (i : ℕ) → drop i xs ≡ [] → get_elem? xs i ≡ none
  get_elem?-drop_nil [] i e = refl
  get_elem?-drop_nil (y ∷ xs) zero e = cc
  get_elem?-drop_nil (y ∷ xs) (suc i) e = get_elem?-drop_nil xs i e

  pub append-ne-nil : (xs ys : List A) (y : A) → xs ++ y ∷ ys ≡ [] → ⊥
  append-ne-nil [] ys y e = cc
  append-ne-nil (x ∷ xs) ys y e = cc

  -- A proper prefix of `a ++ b` ends inside `a`, or it is `a` with a proper prefix of `b`.
  pub append_cut :
      (a b front back : List A) (x : A)
      → a ++ b ≡ front ++ x ∷ back
      → ((y : A) × (more : List A) × (a ≡ front ++ y ∷ more))
        ⊎ ((part : List A) × (front ≡ a ++ part) × (b ≡ part ++ x ∷ back))
  append_cut [] b front back x e = inr (front, refl, e)
  append_cut (y ∷ a) b [] back x e = inl (y, a, refl)
  append_cut (y ∷ a) b (z ∷ front) back x e = elim (append_cut a b front back x (cc)) [
    | inl (w, more, f) ↦ inl (w, more, cc)
    | inr (part, f, g) ↦ inr (part, cc, g)
  ]
