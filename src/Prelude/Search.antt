-- ===== src/Prelude/Search.antt =====
-- Finding and replacing in a text, as Python's `str` does for a pattern that is not empty.
use Prim.Native.Nat.{ℕ, zero, suc, ◌+◌, ◌-◌}
use mathlib.Core.Path.{◌≡◌, refl, sym, ◌∙◌}
use mathlib.Core.List.{[], ◌∷◌, ◌++◌}
use mathlib.Core.Option.{Option, none, some}
use native.Mathlib.Omega.{arith}
use rules_elide.Prelude.Tests.{◌==◌, if◌then◌else◌, Option-cases}
use mathlib.Core.Logic.{◌≢◌, inl, inr}
use rules_elide.Prelude.Lists.{length, length-append, take, drop}
use rules_elide.Prelude.Text.{Text, strip, strip_parts, strip-append}

abbrev after_char : ℕ → Option (Text × Text) → Option (Text × Text)
after_char c none = none
after_char c (some (before, rest)) = some (c ∷ before, rest)

-- What stands before the first occurrence of the pattern, and what stands behind it.
unfoldable pub split_first : Text → Text → Option (Text × Text)
split_first pattern [] = elim (strip pattern []) [ none ↦ none | some rest ↦ some ([], rest) ]
split_first pattern (c ∷ s) =
    let later = after_char c (split_first pattern s) in
    elim (strip pattern (c ∷ s)) [ none ↦ later | some rest ↦ some ([], rest) ]

count_loop : ℕ → Text → Text → ℕ
count_loop zero s pattern = 0
count_loop (suc fuel) s pattern = elim (split_first pattern s) [
  | none ↦ 0
  | some (before, rest) ↦ suc (count_loop fuel rest pattern)
]

-- `s.count(pattern)`; every occurrence takes a character at least.
unfoldable pub count : Text → Text → ℕ
unfolding count_loop
count s pattern = count_loop (suc (length s)) s pattern

-- `s.replace(pattern, new, 1)`
unfoldable pub replace_first : Text → Text → Text → Text
replace_first s pattern new = elim (split_first pattern s) [
  | none ↦ s
  | some (before, rest) ↦ before ++ (new ++ rest)
]

replace_loop : ℕ → Text → Text → Text → Text
replace_loop zero s pattern new = s
replace_loop (suc fuel) s pattern new = elim (split_first pattern s) [
  | none ↦ s
  | some (before, rest) ↦ before ++ (new ++ replace_loop fuel rest pattern new)
]

-- `s.replace(pattern, new)`
unfoldable pub replace : Text → Text → Text → Text
unfolding replace_loop
replace s pattern new = replace_loop (suc (length s)) s pattern new

rfind_from : ℕ → Option ℕ → ℕ → Text → Option ℕ
rfind_from i found c [] = found
rfind_from i found c (d ∷ s) = rfind_from (i + 1) (if d == c then some i else found) c s

-- `s.rfind(c)`, where -1 counts from the end.
last_index : ℕ → Text → ℕ
unfolding rfind_from
last_index c s = elim (rfind_from 0 none c s) [ none ↦ length s - 1 | some i ↦ i ]

-- `s[:i] + new + s[i:]`
insert_at : ℕ → Text → Text → Text
insert_at i new s = take i s ++ (new ++ drop i s)

-- `new` inserted at `s.rfind(c)`.
pub insert_before_last : ℕ → Text → Text → Text
unfolding insert_at
insert_before_last c new s = insert_at (last_index c s) new s

length-insert_at : (i : ℕ) (new s : Text) → length (insert_at i new s) ≡ length new + length s
unfolding insert_at
length-insert_at zero new s = length-append new s
length-insert_at (suc i) new [] = omega (arith, length-append new [])
length-insert_at (suc i) new (c ∷ s) = omega (arith, length-insert_at i new s)

pub length-insert_before_last :
    (c : ℕ) (new s : Text) → length (insert_before_last c new s) ≡ length new + length s
unfolding insert_before_last
length-insert_before_last c new s = length-insert_at (last_index c s) new s

pub append_cancel : (a s t : Text) → a ++ s ≡ a ++ t → s ≡ t
append_cancel [] s t e = e
append_cancel (c ∷ a) s t e = append_cancel a s t (cc)

pub insert_before_last-cancel :
    (c : ℕ) (a b s : Text)
    → insert_before_last c a s ≡ insert_before_last c b s
    → (rest : Text) × (a ++ rest ≡ b ++ rest)
unfolding insert_before_last insert_at
insert_before_last-cancel c a b s e =
    (drop (last_index c s) s, append_cancel (take (last_index c s) s) _ _ e)

split_first-miss :
    (pattern s : Text) (c : ℕ)
    → strip pattern (c ∷ s) ≡ none
    → split_first pattern (c ∷ s) ≡ after_char c (split_first pattern s)
unfolding split_first
split_first-miss pattern s c e = rw (e, split_first)

split_first-hit :
    (pattern s rest : Text) → strip pattern s ≡ some rest → split_first pattern s ≡ some ([], rest)
unfolding split_first
split_first-hit pattern [] rest e = rw (e, split_first)
split_first-hit pattern (c ∷ s) rest e = rw (e, split_first)

hit :
    (pattern s before rest r : Text)
    → strip pattern s ≡ some r
    → split_first pattern s ≡ some (before, rest)
    → s ≡ before ++ (pattern ++ rest)
hit pattern s before rest r h e =
    let found = split_first-hit pattern s r h in
    let whole = strip_parts pattern s r h in ground (arith, found, whole)

later :
    (pattern s b r before rest : Text) (c : ℕ)
    → s ≡ b ++ (pattern ++ r)
    → ◌≡◌ {A = Option (Text × Text)} (some (c ∷ b, r)) (some (before, rest))
    → c ∷ s ≡ before ++ (pattern ++ rest)
later pattern s b r before rest c parts e = ground (arith, parts, e)

-- The text is what stands before the occurrence, the occurrence, and what stands behind it.
pub split_first_parts :
    (pattern s before rest : Text)
    → split_first pattern s ≡ some (before, rest)
    → s ≡ before ++ (pattern ++ rest)
split_first_parts pattern [] before rest e = elim (Option-cases (strip pattern [])) [
  | inl h ↦ unfold split_first in cc (rw (h, split_first) at e)
  | inr (r, h) ↦ hit pattern [] before rest r h e
]
split_first_parts pattern (c ∷ s) before rest e = elim (Option-cases (strip pattern (c ∷ s))) [
  | inr (r, h) ↦ hit pattern (c ∷ s) before rest r h e
  | inl h ↦ elim (Option-cases (split_first pattern s)) [
    | inl k ↦ cc (rw (split_first-miss pattern s c h, k) at e)
    | inr ((b, r), k) ↦
        later pattern s b r before rest c (split_first_parts pattern s b r k)
          (rw (split_first-miss pattern s c h, k) at e)
  ]
]

at_start : (pattern s rest : Text) → split_first pattern s ≡ none → s ≢ pattern ++ rest
at_start pattern s rest e h =
    let found = split_first-hit pattern (pattern ++ rest) rest (strip-append pattern rest) in
    cc (rw (h, found) at e)

after_char-none : (c : ℕ) (o : Option (Text × Text)) → after_char c o ≡ none → o ≡ none
after_char-none c none e = refl
after_char-none c (some found) e = cc

-- Where the search finds nothing, the pattern stands nowhere in the text.
pub split_first-none :
    (pattern s before rest : Text) → split_first pattern s ≡ none → s ≢ before ++ (pattern ++ rest)
split_first-none pattern s [] rest e h = at_start pattern s rest e h
split_first-none pattern [] (d ∷ before) rest e h = cc
split_first-none pattern (c ∷ s) (d ∷ before) rest e h =
    elim (Option-cases (strip pattern (c ∷ s))) [
      | inl k ↦
          split_first-none pattern s before rest
            (after_char-none c (split_first pattern s) (sym (split_first-miss pattern s c k) ∙ e))
            (cc)
      | inr (r, k) ↦ cc (split_first-hit pattern (c ∷ s) r k)
    ]

count_loop-suc :
    (fuel : ℕ) (s pattern before rest : Text)
    → split_first pattern s ≡ some (before, rest)
    → count_loop (suc fuel) s pattern ≡ suc (count_loop fuel rest pattern)
unfolding count_loop
count_loop-suc fuel s pattern before rest e = rw (e, count_loop)

split_first-nil : (p : ℕ) (pattern : Text) → split_first (p ∷ pattern) [] ≡ none
unfolding split_first strip
split_first-nil p pattern = refl

-- A pattern that is counted once stands nowhere behind its first occurrence.
pub count-one :
    (p : ℕ) (pattern s before rest : Text)
    → split_first (p ∷ pattern) s ≡ some (before, rest)
    → count s (p ∷ pattern) ≡ 1
    → split_first (p ∷ pattern) rest ≡ none
unfolding count
count-one p pattern [] before rest e h = cc (split_first-nil p pattern)
count-one p pattern (c ∷ s) before rest e h = elim (Option-cases (split_first (p ∷ pattern) rest)) [
  | inl k ↦ k
  | inr ((b, r), k) ↦ absurd (
      omega (
        arith,
        h,
        count_loop-suc (suc (length s)) (c ∷ s) (p ∷ pattern) before rest e,
        count_loop-suc (length s) rest (p ∷ pattern) b r k,
      ))
]

pub count-none : (s pattern : Text) → split_first pattern s ≡ none → count s pattern ≡ 0
unfolding count count_loop
count-none s pattern e = rw (e, count_loop)

pub replace_first-found :
    (s pattern new before rest : Text)
    → split_first pattern s ≡ some (before, rest)
    → replace_first s pattern new ≡ before ++ (new ++ rest)
unfolding replace_first
replace_first-found s pattern new before rest e = rw (e, replace_first)
