-- ===== src/Bench/Scenario/Names.antt =====
-- Looking a source up by the name of its file.
use rules_elide.Prelude.{
  ◌≡◌, ◌∙◌, sym, ap, refl, inl, inr, Bool, true, false, ◌||◌, [], ◌∷◌, ◌++◌, Bool-cases, ok,
  Result-cases, arith,
}
use rules_elide.Prelude.Text.{Text, text_eq, text_eq_iff}
use rules_elide.Bench.Scenario.{SourcePath, Sources, by_name}

-- Where a name is found, it is the name of the path.
pub by_name-name :
    (sources : Sources) (name : Text) (path : SourcePath) (text : Text)
    → by_name sources name ≡ ok (path, text)
    → path.name ≡ name
unfolding by_name
by_name-name [] name path text e = cc
by_name-name ((p, t) ∷ sources) name path text e = elim (Result-cases (by_name sources name)) [
  | inl ((q, u), k) ↦ by_name-name sources name path text (k ∙ cc (rw k at e))
  | inr (x, k) ↦ elim (Bool-cases (text_eq p.name name)) [
    | inl same ↦
        let found : ◌≡◌ {A = SourcePath} p path = cc (rw (k, same) at e) in
        sym (ap (λ v. v.name) found) ∙ (text_eq_iff p.name name).0 same
    | inr other ↦ cc (rw (k, other) at e)
  ]
]

unfoldable pub has_name : Sources → Text → Bool
has_name [] name = false
has_name ((path, text) ∷ sources) name = text_eq path.name name || has_name sources name

pub has_name-behind :
    (front back : Sources) (name : Text)
    → has_name back name ≡ true
    → has_name (front ++ back) name ≡ true
unfolding has_name
has_name-behind [] back name h = h
has_name-behind ((path, text) ∷ front) back name h =
    ground (arith, has_name-behind front back name h)

-- A name that some path has is found.
pub by_name-has_name :
    (sources : Sources) (name : Text)
    → has_name sources name ≡ true
    → (found : SourcePath × Text) × (by_name sources name ≡ ok found)
unfolding by_name has_name
by_name-has_name [] name h = cc
by_name-has_name ((path, text) ∷ sources) name h = elim (Result-cases (by_name sources name)) [
  | inl (found, k) ↦ (found, rw k refl)
  | inr (e, k) ↦ elim (Bool-cases (text_eq path.name name)) [
    | inl same ↦ ((path, text), rw (k, same) refl)
    | inr other ↦ let (found, l) = by_name-has_name sources name (rw other at h) in cc
  ]
]
