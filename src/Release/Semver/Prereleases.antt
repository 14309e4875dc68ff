-- ===== src/Release/Semver/Prereleases.antt =====
-- elide/private/versions.bzl: how `_parse_semver` ranks prereleases.
use rules_elide.Prelude.{
  ℕ, ◌≡◌, refl, sym, ap, ◌∙◌, true, false, List, [], ◌∷◌, ◌++◌, none, some, arith, append-nil,
  Bool-cases, inl, inr,
}
use rules_elide.Prelude.Text.{Text, codes, text_eq, text_eq_iff, text_lt}
use rules_elide.Release.Semver.{
  rank_lt, rank_of, parse_semver, numbers, split, core_of, base_of, has_char, before_first,
  is_number, all_digits,
}

before_first-append :
    (c : ℕ) (s t : Text) → has_char c s ≡ false → before_first c (s ++ t) ≡ s ++ before_first c t
unfolding has_char before_first
before_first-append c [] t h = refl
before_first-append c (d ∷ s) t h = ground (arith, before_first-append c s t)

has_char-append_self : (c : ℕ) (s t : Text) → has_char c (s ++ c ∷ t) ≡ true
unfolding has_char
has_char-append_self c [] t = ground arith
has_char-append_self c (d ∷ s) t = ground (arith, has_char-append_self c s t)

before_first-none : (c : ℕ) (s : Text) → has_char c s ≡ false → before_first c s ≡ s
unfolding has_char before_first
before_first-none c [] h = refl
before_first-none c (d ∷ s) h = ground (arith, before_first-none c s)

not_latest :
    (version : Text) → has_char b'-' version ≡ true → text_eq version (codes "latest") ≡ false
not_latest version dash = elim (Bool-cases (text_eq version (codes "latest"))) [
  | inr h ↦ h
  | inl h ↦
      cc (sym dash ∙ ap (has_char b'-') ((text_eq_iff version (codes "latest")).0 h) ∙ no_dash)
]
  where
    no_dash : has_char b'-' (codes "latest") ≡ false
    no_dash = unfold has_char in refl

not_latest_core :
    (core : Text) {ns : List ℕ}
    → numbers (split b'.' core) ≡ some ns
    → text_eq core (codes "latest") ≡ false
not_latest_core core parses = elim (Bool-cases (text_eq core (codes "latest"))) [
  | inr h ↦ h
  | inl h ↦ cc (
      sym parses
      ∙ ap (λ s. numbers (split b'.' s)) ((text_eq_iff core (codes "latest")).0 h)
      ∙ unnumbered)
]
  where
    unnumbered : numbers (split b'.' (codes "latest")) ≡ none
    unnumbered = unfold numbers split is_number all_digits in refl

parse_semver-core :
    (core : Text) (ns : List ℕ)
    → has_char b'+' core ≡ false
    → has_char b'-' core ≡ false
    → numbers (split b'.' core) ≡ some ns
    → parse_semver core ≡ rank_of ns 1 core
unfolding parse_semver
parse_semver-core core ns no_plus no_dash parses =
    rw
      (
        not_latest_core core parses,
        before_first-none b'+' core no_plus,
        before_first-none b'-' core no_dash,
        parses,
        before_first-none b'+' core no_plus,
        no_dash,
      )
      refl

base_of-prerelease :
    (core pre : Text)
    → has_char b'+' core ≡ false
    → base_of (core ++ b'-' ∷ pre) ≡ core ++ b'-' ∷ before_first b'+' pre
base_of-prerelease core pre no_plus =
    before_first-append b'+' core (b'-' ∷ pre) no_plus ∙ unfold before_first in refl

core_of-prerelease :
    (core pre : Text)
    → has_char b'+' core ≡ false
    → has_char b'-' core ≡ false
    → core_of (core ++ b'-' ∷ pre) ≡ core
core_of-prerelease core pre no_plus no_dash = rw (base_of-prerelease core pre no_plus) (
    before_first-append b'-' core (b'-' ∷ before_first b'+' pre) no_dash
    ∙ (unfold before_first in append-nil core))

parse_semver-prerelease :
    (core pre : Text) (ns : List ℕ)
    → has_char b'+' core ≡ false
    → has_char b'-' core ≡ false
    → numbers (split b'.' core) ≡ some ns
    → parse_semver (core ++ b'-' ∷ pre) ≡ rank_of ns 0 (core ++ b'-' ∷ pre)
unfolding parse_semver
parse_semver-prerelease core pre ns no_plus no_dash parses =
    rw
      (
        not_latest (core ++ b'-' ∷ pre) (has_char-append_self b'-' core pre),
        core_of-prerelease core pre no_plus no_dash,
        parses,
        base_of-prerelease core pre no_plus,
        has_char-append_self b'-' core (before_first b'+' pre),
      )
      refl

rank_lt-stable : (ns : List ℕ) (v w : Text) → rank_lt (rank_of ns 0 v) (rank_of ns 1 w) ≡ true
unfolding rank_lt rank_of
rank_lt-stable [] v w = ground arith
rank_lt-stable (a ∷ []) v w = ground arith
rank_lt-stable (a ∷ b ∷ []) v w = ground arith
rank_lt-stable (a ∷ b ∷ c ∷ more) v w = ground arith

rank_lt-rank_of :
    (ns : List ℕ) (stable : ℕ) (v w : Text)
    → rank_lt (rank_of ns stable v) (rank_of ns stable w) ≡ text_lt v w
unfolding rank_lt rank_of
rank_lt-rank_of [] stable v w = ground arith
rank_lt-rank_of (a ∷ []) stable v w = ground arith
rank_lt-rank_of (a ∷ b ∷ []) stable v w = ground arith
rank_lt-rank_of (a ∷ b ∷ c ∷ more) stable v w = ground arith

text_lt-append : (a s t : Text) → text_lt (a ++ s) (a ++ t) ≡ text_lt s t
unfolding text_lt
text_lt-append [] s t = refl
text_lt-append (c ∷ a) s t = ground (arith, text_lt-append a s t)

prerelease_below :
    (core pre : Text) (ns : List ℕ)
    → has_char b'+' core ≡ false
    → has_char b'-' core ≡ false
    → numbers (split b'.' core) ≡ some ns
    → rank_lt (parse_semver (core ++ b'-' ∷ pre)) (parse_semver core) ≡ true
prerelease_below core pre ns no_plus no_dash parses =
    rw
      (
        parse_semver-prerelease core pre ns no_plus no_dash parses,
        parse_semver-core core ns no_plus no_dash parses,
      )
      (rank_lt-stable ns (core ++ b'-' ∷ pre) core)

prereleases_as_texts :
    (core pre other : Text) (ns : List ℕ)
    → has_char b'+' core ≡ false
    → has_char b'-' core ≡ false
    → numbers (split b'.' core) ≡ some ns
    → rank_lt (parse_semver (core ++ b'-' ∷ pre)) (parse_semver (core ++ b'-' ∷ other))
      ≡ text_lt pre other
prereleases_as_texts core pre other ns no_plus no_dash parses =
    rw
      (
        parse_semver-prerelease core pre ns no_plus no_dash parses,
        parse_semver-prerelease core other ns no_plus no_dash parses,
      )
      (rank_lt-rank_of ns 0 (core ++ b'-' ∷ pre) (core ++ b'-' ∷ other)
        ∙ text_lt-append core (b'-' ∷ pre) (b'-' ∷ other)
        ∙ text_lt-append (b'-' ∷ []) pre other)

-- A version of numbers and dots, without a plus sign or a dash, ranks above each prerelease of it;
-- its prereleases are ranked as texts, so that `rc.10` stands below `rc.2`.
pub prerelease_ranks :
    (core pre other : Text) (ns : List ℕ)
    → has_char b'+' core ≡ false
    → has_char b'-' core ≡ false
    → numbers (split b'.' core) ≡ some ns
    → (rank_lt (parse_semver (core ++ b'-' ∷ pre)) (parse_semver core) ≡ true)
      × (rank_lt (parse_semver (core ++ b'-' ∷ pre)) (parse_semver (core ++ b'-' ∷ other))
          ≡ text_lt pre other)
prerelease_ranks core pre other ns no_plus no_dash parses = (
  prerelease_below core pre ns no_plus no_dash parses,
  prereleases_as_texts core pre other ns no_plus no_dash parses,
)
