-- ===== src/Partial/Merge/Laws.antt =====
-- When the merge equals a fresh compile, and when it cannot.
use rules_elide.Prelude.{
  ℕ, ◌≡◌, ◌≢◌, ◌↔◌, refl, sym, ◌∙◌, subst, append-nil, inl, inr, true, false, not, List, [], ◌∷◌,
  ◌++◌, arith, Option, none, some, Bool-cases, if◌then◌else◌,
}
use rules_elide.Prelude.Text.{Text, text_eq, text_eq_iff, sorted_set, sorted_set-nil}
use rules_elide.Prelude.Dict.{
  lookup, filter_keys, keys, NodupKeys, or_else, lookup-cons, lookup-update, lookup-filter_keys,
}
use rules_elide.Partial.Merge.{Classes, is_owned, merged, same_contents, differing, differences}

-- What the merge holds: the partial compile's classes, and of the baseline those not owned.
lookup-merged :
    (prefixes : List Text) (baseline partial : Classes) (name : Text)
    → NodupKeys partial
    → lookup name (merged prefixes baseline partial)
      ≡ or_else
          (lookup name partial)
          (if is_owned prefixes name then none else lookup name baseline)
unfolding merged
lookup-merged prefixes baseline partial name once =
    rw
      (
        lookup-update name (filter_keys (λ n. not (is_owned prefixes n)) baseline) partial once,
        lookup-filter_keys name (λ n. not (is_owned prefixes n)) baseline,
      )
      (ground arith)

same_contents_iff : (a b : Option (List ℕ)) → (same_contents a b ≡ true) ↔ (a ≡ b)
unfolding same_contents
same_contents_iff none none = ground arith
same_contents_iff none (some b) = ground arith
same_contents_iff (some a) none = ground arith
same_contents_iff (some a) (some b) = ground (arith, text_eq_iff a b)

differing-nil :
    (a b : Classes) (names : List Text)
    → ((name : Text) → lookup name a ≡ lookup name b)
    → differing a b names ≡ []
unfolding differing
differing-nil a b [] h = refl
differing-nil a b (name ∷ names) h =
    rw ((same_contents_iff (lookup name a) (lookup name b)).1 (h name)) (differing-nil a b names h)

-- An empty list of differences: the contents agree at its first name, and in the rest.
differing-cons :
    (a b : Classes) (name : Text) (names : List Text)
    → differing a b (name ∷ names) ≡ []
    → (lookup name a ≡ lookup name b) × (differing a b names ≡ [])
unfolding differing
differing-cons a b name names h = ground (arith, same_contents_iff (lookup name a) (lookup name b))

differing-behind :
    (a b d : Classes) (more : List Text)
    → differing a b (keys d ++ more) ≡ []
    → differing a b more ≡ []
differing-behind a b [] more h = h
differing-behind a b ((j, v) ∷ d) more h =
    differing-behind a b d more (differing-cons a b j (keys d ++ more) h).1

differing-at :
    (a b d : Classes) (more : List Text) (name : Text) {contents : List ℕ}
    → lookup name d ≡ some contents
    → differing a b (keys d ++ more) ≡ []
    → lookup name a ≡ lookup name b
differing-at a b [] more name e h = unfold lookup in cc
differing-at a b ((j, v) ∷ d) more name e h =
    let (here, there) = differing-cons a b j (keys d ++ more) h in
    elim (Bool-cases (text_eq j name)) [
      | inl same ↦ subst (λ n. lookup n a ≡ lookup n b) ((text_eq_iff j name).0 same) here
      | inr other ↦ differing-at a b d more name (rw (lookup-cons name j v d, other) at e) there
    ]

-- The comparison finds nothing exactly when the two archives hold the same classes.
differences-nil_iff :
    (a b : Classes) → (differences a b ≡ []) ↔ ((name : Text) → lookup name a ≡ lookup name b)
unfolding differences
differences-nil_iff a b = (
  λ h name.
      let none_differ = sorted_set-nil (differing a b (keys a ++ keys b)) h in
      agree name none_differ (lookup name a) (lookup name b) refl refl,
  λ same. rw (differing-nil a b (keys a ++ keys b) same) (unfold sorted_set in refl),
)
  where
    agree :
        (name : Text)
        → differing a b (keys a ++ keys b) ≡ []
        → (x y : Option (List ℕ)) → lookup name a ≡ x
        → lookup name b ≡ y
        → lookup name a ≡ lookup name b
    agree name h none none e f = e ∙ sym f
    agree name h (some c) y e f = differing-at a b a (keys b) name e h
    agree name h none (some c) e f =
        differing-at a b b [] name f (rw append-nil (differing-behind a b a (keys b) h))

-- A merge is complete where the changed sources own, by name, what the compile of them changes: the
-- fresh compile agrees with the baseline outside, and with the partial compile inside.
pub merged_complete :
    (prefixes : List Text) (baseline partial reference : Classes)
    → NodupKeys partial
    → ((name : Text)
        → is_owned prefixes name ≡ false
        → lookup name reference ≡ lookup name baseline)
    → ((name : Text) → is_owned prefixes name ≡ true → lookup name partial ≡ lookup name reference)
    → ((name : Text) → is_owned prefixes name ≡ false → lookup name partial ≡ none)
    → differences (merged prefixes baseline partial) reference ≡ []
merged_complete prefixes baseline partial reference once outside inside only =
    (differences-nil_iff _ reference).1 λ name.
      lookup-merged prefixes baseline partial name once
      ∙ (elim (Bool-cases (is_owned prefixes name)) [
        | inl h ↦ ground (arith, h, inside name h)
        | inr h ↦ ground (arith, h, outside name h, only name h)
      ])

-- A class that no changed source owns by name, and that the fresh compile no longer makes, stays in
-- the merge, and the comparison reports it.
merged_stale :
    (prefixes : List Text) (baseline partial reference : Classes) (name : Text) {contents : List ℕ}
    → NodupKeys partial
    → is_owned prefixes name ≡ false
    → lookup name baseline ≡ some contents
    → lookup name reference ≡ none
    → differences (merged prefixes baseline partial) reference ≢ []
merged_stale prefixes baseline partial reference name once free old gone h =
    let same = (differences-nil_iff (merged prefixes baseline partial) reference).0 h name in
    ground (arith, same, lookup-merged prefixes baseline partial name once)
