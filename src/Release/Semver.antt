-- ===== src/Release/Semver.antt =====
-- elide/private/versions.bzl: `_parse_semver` and `select_version`.
pub mod Order
pub mod Select
pub mod Prereleases
use rules_elide.Prelude.{
  ℕ, zero, suc, ◌+◌, ◌-◌, ◌*◌, Bool, true, false, ◌&&◌, ◌||◌, List, [], ◌∷◌, ◌++◌, Option, none,
  some, ltb, leb, ◌==◌, if◌then◌else◌,
}
use rules_elide.Prelude.Text.{Text, codes, text_eq, text_lt}

-- `s.split(c, 1)[0]`
unfoldable pub before_first : ℕ → Text → Text
before_first c [] = []
before_first c (d ∷ s) = let more = d ∷ before_first c s in if d == c then [] else more

-- `c in s`
unfoldable pub has_char : ℕ → Text → Bool
has_char c [] = false
has_char c (d ∷ s) = d == c || has_char c s

abbrev pub prepend : ℕ → List Text → List Text
prepend c [] = (c ∷ []) ∷ []
prepend c (part ∷ parts) = (c ∷ part) ∷ parts

-- `s.split(c)`
unfoldable pub split : ℕ → Text → List Text
split c [] = [] ∷ []
split c (d ∷ s) = let more = split c s in if d == c then [] ∷ more else prepend d more

abbrev pub is_digit : ℕ → Bool
is_digit c = leb b'0' c && leb c b'9'

unfoldable pub all_digits : Text → Bool
all_digits [] = true
all_digits (c ∷ s) = is_digit c && all_digits s

-- `s.isdigit()`, which is false of the empty text.
unfoldable pub is_number : Text → Bool
is_number [] = false
is_number (c ∷ s) = all_digits (c ∷ s)

-- `int(s)` of digits, from the number that is read.
unfoldable pub number_from : ℕ → Text → ℕ
number_from n [] = n
number_from n (c ∷ s) = number_from (n * 10 + (c - b'0')) s

-- The loop over `parts`: `nums`, or none where one is no number.
unfoldable pub numbers : List Text → Option (List ℕ)
numbers [] = some []
numbers (part ∷ parts) =
    if is_number part
    then elim (numbers parts) [ none ↦ none | some ns ↦ some (number_from 0 part ∷ ns) ]
    else none

-- The comparable tuple. `unparsed version` is `(-1, 0, 0, 0, version)`.
pub data Rank : Type 0 where
  unparsed : Text → Rank
  parsed : ℕ → ℕ → ℕ → ℕ → Text → Rank

-- `nums` with zeros behind it, up to three numbers.
unfoldable pub rank_of : List ℕ → ℕ → Text → Rank
rank_of [] stable version = parsed 0 0 0 stable version
rank_of (major ∷ []) stable version = parsed major 0 0 stable version
rank_of (major ∷ minor ∷ []) stable version = parsed major minor 0 stable version
rank_of (major ∷ minor ∷ patch ∷ more) stable version = parsed major minor patch stable version

-- The base without the metadata, and its core without the prerelease.
abbrev pub base_of : Text → Text
base_of version = before_first b'+' version

abbrev pub core_of : Text → Text
core_of version = before_first b'-' (base_of version)

unfoldable pub parse_semver : Text → Rank
parse_semver version =
    if text_eq version (codes "latest")
    then parsed 999999999 0 0 1 []
    else (elim (numbers (split b'.' (core_of version))) [
      | none ↦ unparsed version
      | some ns ↦ rank_of ns (if has_char b'-' (base_of version) then 0 else 1) version
    ])

-- `a < b` on the tuples.
unfoldable pub rank_lt : Rank → Rank → Bool
rank_lt (unparsed v) (unparsed w) = text_lt v w
rank_lt (unparsed v) (parsed b1 b2 b3 b4 w) = true
rank_lt (parsed a1 a2 a3 a4 v) (unparsed w) = false
rank_lt (parsed a1 a2 a3 a4 v) (parsed b1 b2 b3 b4 w) =
    ltb a1 b1
    || (a1 == b1
        && (ltb a2 b2
            || (a2 == b2 && (ltb a3 b3 || (a3 == b3 && (ltb a4 b4 || (a4 == b4 && text_lt v w)))))))

-- `sorted(versions, key = _parse_semver)`, which keeps the order of equal keys.
unfoldable pub insert_version : Text → List Text → List Text
insert_version v [] = v ∷ []
insert_version v (w ∷ ws) =
    let later = w ∷ insert_version v ws in
    if rank_lt (parse_semver w) (parse_semver v) then later else v ∷ w ∷ ws

unfoldable pub sort_versions : List Text → List Text
sort_versions [] = []
sort_versions (v ∷ vs) = insert_version v (sort_versions vs)

abbrev pub last {ℓ} : {A : Type ℓ} → List A → Option A
last [] = none
last (x ∷ []) = some x
last (x ∷ y ∷ xs) = last (y ∷ xs)

-- `sorted(...)[-1]`; none is the error of an index out of range.
unfoldable pub select_version : List Text → Option Text
select_version versions = last (sort_versions versions)
