-- ===== src/Release/Extension/Overlays.antt =====
-- elide/extensions.bzl: the checks of a use tag's overlays.
use mathlib.Core.List.{Mem, mem-cons_self, mem-cons_of_mem}
use rules_elide.Prelude.{
  ◌≡◌, ◌≢◌, refl, sym, ap, ◌∙◌, subst, inl, inr, Bool, true, false, List, [], ◌∷◌, none, some, ok,
  Bool-cases, if◌then◌else◌,
}
use rules_elide.Prelude.Text.{Text, text_eq, text_eq_iff, sorted_set, has_text, has_text-sorted_set}
use rules_elide.Prelude.Dict.{Dict, keys, lookup, lookup-cons}
use rules_elide.Release.Urls.{is_empty}
use rules_elide.Release.Extension.Use.{get_text, check_overlays, texts_eq}

texts_eq-≡ : (ss ts : List Text) → texts_eq ss ts ≡ true → ss ≡ ts
unfolding texts_eq
texts_eq-≡ [] [] e = refl
texts_eq-≡ [] (t ∷ ts) e = cc
texts_eq-≡ (s ∷ ss) [] e = cc
texts_eq-≡ (s ∷ ss) (t ∷ ts) e = elim (Bool-cases (text_eq s t)) [
  | inr h ↦ cc (rw h at e)
  | inl h ↦ pair ((text_eq_iff s t).0 h) (texts_eq-≡ ss ts (rw h at e))
]
  where
    pair : {x y : Text} {xs ys : List Text} → x ≡ y → xs ≡ ys → (x ∷ xs) ≡ (y ∷ ys)
    pair h k = cc

-- Two dicts with the same keys, when sorted.
pub covers :
    (d e : Dict Text)
    → texts_eq (sorted_set (keys d)) (sorted_set (keys e)) ≡ true
    → (key : Text) → has_text key (keys d) ≡ has_text key (keys e)
covers d e same key =
    sym (has_text-sorted_set key (keys d))
    ∙ ap (has_text key) (texts_eq-≡ (sorted_set (keys d)) (sorted_set (keys e)) same)
    ∙ has_text-sorted_set key (keys e)

get_text-cons :
    (key j hash : Text) (d : Dict Text) (b : Bool)
    → text_eq j key ≡ b
    → get_text key ((j, hash) ∷ d) ≡ (if b then hash else get_text key d)
get_text-cons key j hash d true h =
    ap (λ o. elim o [ none ↦ [] | some s ↦ s ])
      (lookup-cons key j hash d ∙ ap (λ b. if b then some hash else lookup key d) h)
get_text-cons key j hash d false h =
    ap (λ o. elim o [ none ↦ [] | some s ↦ s ])
      (lookup-cons key j hash d ∙ ap (λ b. if b then some hash else lookup key d) h)

-- An overlay's hash is there for each key, once they are checked.
pub get_text-check_overlays :
    (d : Dict Text) (key : Text)
    → check_overlays d ≡ ok tt
    → has_text key (keys d) ≡ true
    → Mem (key, get_text key d) d × (get_text key d ≢ [])
unfolding check_overlays has_text
get_text-check_overlays [] key h e = cc
get_text-check_overlays ((j, hash) ∷ d) key h e = elim (Bool-cases (is_empty hash)) [
  | inl k ↦ cc (rw k at h)
  | inr k ↦ elim (Bool-cases (text_eq j key)) [
    | inl l ↦
        let here = get_text-cons key j hash d true l in
        (
          subst (λ i. Mem (i, get_text key ((j, hash) ∷ d)) ((j, hash) ∷ d))
              ((text_eq_iff j key).0 l)
              (subst (λ v. Mem (j, v) ((j, hash) ∷ d)) (sym here) mem-cons_self),
          λ none_there. cc (k, ap is_empty (sym here ∙ none_there)),
        )
    | inr l ↦
        let there = get_text-cons key j hash d false l in
        let (found, some_hash) = get_text-check_overlays d key (rw k at h) (rw l at e) in
        (
          subst (λ v. Mem (key, v) ((j, hash) ∷ d)) (sym there) (mem-cons_of_mem (j, hash) found),
          λ none_there. some_hash (sym there ∙ none_there),
        )
  ]
]
