-- ===== src/Sbom/Parse/Tokens.antt =====
-- The tokens of a declaration: what each part of the expression takes, and that it takes something.
use rules_elide.Prelude.{
  ℕ, ◌≤◌, ◌<◌, ◌≡◌, ◌≢◌, refl, ap, true, false, [], ◌∷◌, ◌++◌, append_assoc, arith, Option, some,
  length, All, Option-cases, inl, inr,
}
use rules_elide.Prelude.Text.{Text, codes, strip, strip-append, strip_shorter}
use rules_elide.Sbom.Parse.{is_space, skip_spaces, until_quote, quoted, assignment, match_dep}

-- Where the text begins with something else than white space, nothing is skipped.
abbrev pub Starts : Text → Type 0
Starts [] = Unit
Starts (c ∷ s) = is_space c ≡ false

pub skip_spaces-append :
    (blank s : Text) → All (λ c. is_space c ≡ true) blank → Starts s → skip_spaces (blank ++ s) ≡ s
unfolding skip_spaces
skip_spaces-append [] [] h start = refl
skip_spaces-append [] (c ∷ s) h start = rw start
skip_spaces-append (b ∷ blank) s (h, hs) start = rw h (skip_spaces-append blank s hs start)

skip_spaces_le : (s : Text) → length (skip_spaces s) ≤ length s
unfolding skip_spaces
skip_spaces_le [] = omega arith
skip_spaces_le (c ∷ s) = ground (arith, skip_spaces_le s)

until_quote-append :
    (name s : Text) → All (λ c. c ≢ b'"') name → until_quote (name ++ b'"' ∷ s) ≡ some (name, s)
unfolding until_quote
until_quote-append [] s h = refl
until_quote-append (c ∷ name) s (h, hs) = ground (arith, until_quote-append name s hs)

-- A value that can stand between quotes.
abbrev pub IsValue : Text → Type 0
IsValue name = (name ≢ []) × All (λ c. c ≢ b'"') name

abbrev pub quote : Text → Text
quote name = b'"' ∷ (name ++ b'"' ∷ [])

pub quoted-quote : (name s : Text) → IsValue name → quoted (quote name ++ s) ≡ some (name, s)
unfolding quoted
quoted-quote [] s (h, hs) = absurd (h refl)
quoted-quote (c ∷ name) s (h, hs) = rw (
  append_assoc (c ∷ name) (b'"' ∷ []) s,
  strip-append (codes "\"") ((c ∷ name) ++ b'"' ∷ s),
  until_quote-append (c ∷ name) s hs,
)

until_quote_shorter :
    (s taken rest : Text) → until_quote s ≡ some (taken, rest) → length rest < length s
unfolding until_quote
until_quote_shorter [] taken rest e = cc
until_quote_shorter (c ∷ s) taken rest e = elim (Option-cases (until_quote s)) [
  | inl h ↦ ground (arith, h)
  | inr ((t, r), h) ↦ ground (arith, h, until_quote_shorter s t r h)
]

quoted_shorter : (s taken rest : Text) → quoted s ≡ some (taken, rest) → length rest < length s
unfolding quoted
quoted_shorter s taken rest e = elim (Option-cases (strip (codes "\"") s)) [
  | inl h ↦ cc (rw h at e)
  | inr (u, h) ↦ elim (Option-cases (until_quote u)) [
    | inl k ↦ cc (rw (h, k) at e)
    | inr (([], r), k) ↦ cc (rw (h, k) at e)
    | inr ((t ∷ ts, r), k) ↦ omega (
      arith,
      strip_shorter (codes "\"") s u h,
      until_quote_shorter u (t ∷ ts) r k,
      ap length (same_rest ts r (rw (h, k) at e)),
    )
  ]
]
  where
    same_rest :
        {t : ℕ} (ts r : Text)
        → ◌≡◌ {A = Option (Text × Text)} (some (t ∷ ts, r)) (some (taken, rest))
        → r ≡ rest
    same_rest ts r e = cc

assignment_shorter :
    (key s taken rest : Text) → assignment key s ≡ some (taken, rest) → length rest < length s
unfolding assignment
assignment_shorter key s taken rest e = elim (Option-cases (strip key (skip_spaces s))) [
  | inl h ↦ cc (rw h at e)
  | inr (u, h) ↦ elim (Option-cases (strip (codes "=") (skip_spaces u))) [
    | inl k ↦ cc (rw (h, k) at e)
    | inr (v, k) ↦ omega (
      arith,
      strip_shorter key (skip_spaces s) u h,
      strip_shorter (codes "=") (skip_spaces u) v k,
      skip_spaces_le s,
      skip_spaces_le u,
      skip_spaces_le v,
      quoted_shorter (skip_spaces v) taken rest (rw (h, k) at e),
    )
  ]
]

pub match_dep_shorter :
    (s name version rest : Text) → match_dep s ≡ some (name, version, rest) → length rest < length s
unfolding match_dep
match_dep_shorter s name version rest e = elim (Option-cases (strip (codes "bazel_dep(") s)) [
  | inl h ↦ cc (rw h at e)
  | inr (s1, h) ↦ elim (Option-cases (assignment (codes "name") s1)) [
    | inl k ↦ cc (rw (h, k) at e)
    | inr ((n, s2), k) ↦ elim (Option-cases (strip (codes ",") (skip_spaces s2))) [
      | inl m ↦ cc (rw (h, k, m) at e)
      | inr (s3, m) ↦ elim (Option-cases (assignment (codes "version") s3)) [
        | inl o ↦ cc (rw (h, k, m, o) at e)
        | inr ((v, s4), o) ↦ omega (
          arith,
          strip_shorter (codes "bazel_dep(") s s1 h,
          assignment_shorter (codes "name") s1 n s2 k,
          strip_shorter (codes ",") (skip_spaces s2) s3 m,
          skip_spaces_le s2,
          assignment_shorter (codes "version") s3 v s4 o,
          ap length (last_rest n v s4 (rw (h, k, m, o) at e)),
        )
      ]
    ]
  ]
]
  where
    last_rest :
        (n v s4 : Text)
        → ◌≡◌ {A = Option (Text × Text × Text)} (some (n, v, s4)) (some (name, version, rest))
        → s4 ≡ rest
    last_rest n v s4 f = cc
