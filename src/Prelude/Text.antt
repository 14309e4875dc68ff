-- ===== src/Prelude/Text.antt =====
-- Text as the list of its code points, with the operations of Python's `str` that several
-- components use.
use Prim.Native.Char.{code}
use Prim.Native.Nat.{ℕ, ◌+◌}
use Prim.Native.String.{String}
use mathlib.Core.Path.{◌≡◌, refl, ap, ◌∙◌}
use mathlib.Core.Logic.{◌↔◌, ◌≢◌}
use mathlib.Core.Bool.{Bool, true, false, ◌&&◌, ◌||◌}
use mathlib.Core.List.{List, [], ◌∷◌, ◌++◌}
use mathlib.Core.Option.{Option, none, some}
use native.Mathlib.Omega.{arith}
use rules_elide.Prelude.Tests.{◌==◌, ltb, if◌then◌else◌}
use rules_elide.Prelude.Lists.{length}

abbrev pub Text : Type 0
Text = List ℕ

abbrev pub codes : String → Text
codes String.[] = []
codes (String.◌∷◌ c s) = code c ∷ codes s

-- `"".join(parts)`
abbrev pub join : List Text → Text
join [] = []
join (s ∷ ss) = s ++ join ss

-- The rest of the text behind a literal that it begins with.
unfoldable pub strip : Text → Text → Option Text
strip [] s = some s
strip (p ∷ pattern) [] = none
strip (p ∷ pattern) (c ∷ s) = if p == c then strip pattern s else none

-- The text and the literal differ at a place that both have.
abbrev pub mismatch : Text → Text → Bool
mismatch [] s = false
mismatch (p ∷ pattern) [] = false
mismatch (p ∷ pattern) (c ∷ s) = if p == c then mismatch pattern s else true

pub strip-append : (pattern s : Text) → strip pattern (pattern ++ s) ≡ some s
unfolding strip
strip-append [] s = refl
strip-append (p ∷ pattern) s = ground (arith, strip-append pattern s)

pub strip-mismatch :
    (pattern s rest : Text) → mismatch pattern s ≡ true → strip pattern (s ++ rest) ≡ none
unfolding strip
strip-mismatch [] s rest h = cc
strip-mismatch (p ∷ pattern) [] rest h = cc
strip-mismatch (p ∷ pattern) (c ∷ s) rest h = ground (arith, strip-mismatch pattern s rest)

pub strip_shorter :
    (pattern s rest : Text) → strip pattern s ≡ some rest → length pattern + length rest ≡ length s
unfolding strip
strip_shorter [] s rest e = ground arith
strip_shorter (p ∷ pattern) [] rest e = cc
strip_shorter (p ∷ pattern) (c ∷ s) rest e = ground (arith, strip_shorter pattern s rest)

unfoldable pub text_eq : Text → Text → Bool
text_eq [] [] = true
text_eq [] (c ∷ t) = false
text_eq (c ∷ s) [] = false
text_eq (c ∷ s) (d ∷ t) = c == d && text_eq s t

pub text_eq_iff : (s t : Text) → (text_eq s t ≡ true) ↔ (s ≡ t)
unfolding text_eq
text_eq_iff [] [] = ground arith
text_eq_iff [] (c ∷ t) = ground arith
text_eq_iff (c ∷ s) [] = ground arith
text_eq_iff (c ∷ s) (d ∷ t) = ground (arith, text_eq_iff s t)

-- `s.startswith(prefix)`
unfoldable pub starts_with : Text → Text → Bool
starts_with s prefix = elim (strip prefix s) [ none ↦ false | some rest ↦ true ]

-- `s.endswith(suffix)`
unfoldable pub ends_with : Text → Text → Bool
ends_with [] suffix = text_eq [] suffix
ends_with (c ∷ s) suffix = text_eq (c ∷ s) suffix || ends_with s suffix

-- `s < t` on texts, by code points.
unfoldable pub text_lt : Text → Text → Bool
text_lt s [] = false
text_lt [] (d ∷ t) = true
text_lt (c ∷ s) (d ∷ t) = ltb c d || (c == d && text_lt s t)

-- `sorted(set)`, inserting one text after the other.
insert_sorted : Text → List Text → List Text
insert_sorted s [] = s ∷ []
insert_sorted s (t ∷ ts) =
    let later = t ∷ insert_sorted s ts in
    if text_eq s t then t ∷ ts else if text_lt s t then s ∷ t ∷ ts else later

unfoldable pub sorted_set : List Text → List Text
unfolding insert_sorted
sorted_set [] = []
sorted_set (s ∷ ts) = insert_sorted s (sorted_set ts)

insert_sorted-ne-nil : (s : Text) (ts : List Text) → insert_sorted s ts ≢ []
unfolding insert_sorted
insert_sorted-ne-nil s [] e = cc
insert_sorted-ne-nil s (t ∷ ts) e = ground arith

pub sorted_set-nil : (ts : List Text) → sorted_set ts ≡ [] → ts ≡ []
unfolding sorted_set
sorted_set-nil [] e = refl
sorted_set-nil (s ∷ ts) e = absurd (insert_sorted-ne-nil s (sorted_set ts) e)

pub strip_parts : (pattern s rest : Text) → strip pattern s ≡ some rest → s ≡ pattern ++ rest
unfolding strip
strip_parts [] s rest e = ground arith
strip_parts (p ∷ pattern) [] rest e = cc
strip_parts (p ∷ pattern) (c ∷ s) rest e = ground (arith, strip_parts pattern s rest)

-- `==` on pairs of texts.
unfoldable pub pair_eq : Text × Text → Text × Text → Bool
pair_eq (a, b) (c, d) = text_eq a c && text_eq b d

pub pair_eq_iff : (p q : Text × Text) → (pair_eq p q ≡ true) ↔ (p ≡ q)
unfolding pair_eq
pair_eq_iff (a, b) (c, d) = (
  λ e. pair (ground (arith, text_eq_iff a c)) (ground (arith, text_eq_iff b d, text_eq_iff a c)),
  λ e. ground (
    arith,
    text_eq_iff a c,
    text_eq_iff b d,
    ap (λ (p : Text × Text). p.0) e,
    ap (λ (p : Text × Text). p.1) e,
  ),
)
  where
    pair : {x y z w : Text} → x ≡ y → z ≡ w → ◌≡◌ {A = Text × Text} (x, z) (y, w)
    pair h k = cc

-- `s in ts`
unfoldable pub has_text : Text → List Text → Bool
has_text s [] = false
has_text s (t ∷ ts) = text_eq t s || has_text s ts

has_text-insert_sorted :
    (s t : Text) (ts : List Text) → has_text s (insert_sorted t ts) ≡ (text_eq t s || has_text s ts)
unfolding has_text insert_sorted
has_text-insert_sorted s t [] = refl
has_text-insert_sorted s t (u ∷ ts) =
    ground (arith, has_text-insert_sorted s t ts, text_eq_iff t u, text_eq_iff t s, text_eq_iff u s)

pub has_text-sorted_set : (s : Text) (ts : List Text) → has_text s (sorted_set ts) ≡ has_text s ts
unfolding sorted_set has_text
has_text-sorted_set s [] = refl
has_text-sorted_set s (t ∷ ts) =
    has_text-insert_sorted s t (sorted_set ts)
    ∙ ap (λ b. text_eq t s || b) (has_text-sorted_set s ts)
