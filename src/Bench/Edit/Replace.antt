-- ===== src/Bench/Edit/Replace.antt =====
-- benchmarks/commons_lang_fixture.py: what `replace_once` has done when it returns.
use rules_elide.Prelude.{
  ℕ, ◌≡◌, ◌∙◌, refl, inl, inr, ◌∷◌, ◌++◌, arith, Option-cases, Bool-cases, ok, err, ◌==◌, ==_iff,
}
use rules_elide.Prelude.Text.{Text}
use rules_elide.Prelude.Search.{
  split_first, split_first_parts, split_first-none, count, count-one, count-none, replace_first,
  replace_first-found,
}
use rules_elide.Bench.Scenario.{revision_mismatch}
use rules_elide.Bench.Edit.{replace_once}

-- The pattern stands somewhere in the text.
abbrev pub Occurs : Text → Text → Type 0
Occurs pattern s = (b : Text) × (r : Text) × (s ≡ b ++ (pattern ++ r))

once : (text old new out : Text) → replace_once text old new ≡ ok out → count text old ≡ 1
unfolding replace_once
once text old new out e = elim (Bool-cases (count text old == 1)) [
  | inl h ↦ (==_iff (count text old) 1).0 h
  | inr h ↦ cc (rw h at e)
]

replaced_text :
    (text old new out : Text)
    → replace_once text old new ≡ ok out
    → out ≡ replace_first text old new
unfolding replace_once
replaced_text text old new out e = elim (Bool-cases (count text old == 1)) [
  | inl h ↦ cc (rw h at e)
  | inr h ↦ cc (rw h at e)
]

-- Where `replace_once` returns, the text held the pattern, which is not empty, at one place and at
-- none behind it, and the result is the text with the replacement at that place.
pub replace_once-replaces :
    (text old new out : Text) (c : ℕ)
    → replace_once text (c ∷ old) new ≡ ok out
    → (before : Text) × (after : Text) × (text ≡ before ++ ((c ∷ old) ++ after))
      × (¬ Occurs (c ∷ old) after)
      × (out ≡ before ++ (new ++ after))
replace_once-replaces text old new out c e = elim (Option-cases (split_first (c ∷ old) text)) [
  | inl h ↦ absurd (ground (arith, count-none text (c ∷ old) h, once text (c ∷ old) new out e))
  | inr ((before, after), h) ↦ (
    before,
    after,
    split_first_parts (c ∷ old) text before after h,
    λ (b, r, k).
        split_first-none (c ∷ old) after b r
          (count-one c old text before after h (once text (c ∷ old) new out e)) k,
    replaced_text text (c ∷ old) new out e ∙ replace_first-found text (c ∷ old) new before after h,
  )
]

-- Where a pattern that is not empty stands nowhere in the text, `replace_once` refuses the revision.
replace_once-absent :
    (text old new : Text) (c : ℕ)
    → ¬ Occurs (c ∷ old) text
    → replace_once text (c ∷ old) new ≡ err (revision_mismatch (c ∷ old))
unfolding replace_once
replace_once-absent text old new c absent = elim (Option-cases (split_first (c ∷ old) text)) [
  | inl h ↦ rw (count-none text (c ∷ old) h) refl
  | inr ((before, after), h) ↦
      absurd (absent (before, after, split_first_parts (c ∷ old) text before after h))
]
