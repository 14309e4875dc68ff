-- ===== src/Partial/Tests.antt =====
-- Runs of the merge of class files in benchmarks/java_partial_compile.py.
use rules_elide.Prelude.{
  ◌≡◌, refl, sym, subst, inl, inr, true, false, List, [], ◌∷◌, none, arith, Bool-cases,
}
use rules_elide.Prelude.Text.{Text, codes, strip, text_eq, text_eq_iff, starts_with}
use rules_elide.Prelude.Dict.{lookup, update, filter_keys, insert}
use rules_elide.Partial.Merge.{Classes, is_owned, merged, differences}
use rules_elide.Partial.Merge.Laws.{merged_complete}

abbrev a_class : Text
a_class = codes "A.class"

abbrev c_class : Text
c_class = codes "C.class"

abbrev baseline : Classes
baseline = (a_class, 1 ∷ []) ∷ (c_class, 3 ∷ []) ∷ []

abbrev partial : Classes
partial = (a_class, 9 ∷ []) ∷ []

abbrev reference : Classes
reference = (c_class, 3 ∷ []) ∷ (a_class, 9 ∷ []) ∷ []

abbrev prefixes : List Text
prefixes = codes "A" ∷ []

merged_classes : merged prefixes baseline partial ≡ reference
unfolding merged update filter_keys insert is_owned starts_with strip text_eq
merged_classes = refl

owned_a : is_owned prefixes a_class ≡ true
unfolding is_owned starts_with strip text_eq
owned_a = refl

free_c : is_owned prefixes c_class ≡ false
unfolding is_owned starts_with strip text_eq
free_c = refl

outside :
    (name : Text) → is_owned prefixes name ≡ false → lookup name reference ≡ lookup name baseline
unfolding lookup
outside name h = elim (Bool-cases (text_eq a_class name)) [
  | inl same ↦ absurd (
      ground (
        arith,
        subst (λ n. is_owned prefixes n ≡ false) (sym ((text_eq_iff a_class name).0 same)) h,
        owned_a,
      ))
  | inr other ↦ rw (other) refl
]

inside : (name : Text) → is_owned prefixes name ≡ true → lookup name partial ≡ lookup name reference
unfolding lookup
inside name h = elim (Bool-cases (text_eq c_class name)) [
  | inl same ↦ absurd (
      ground (
        arith,
        subst (λ n. is_owned prefixes n ≡ true) (sym ((text_eq_iff c_class name).0 same)) h,
        free_c,
      ))
  | inr other ↦ rw (other) refl
]

only : (name : Text) → is_owned prefixes name ≡ false → lookup name partial ≡ none
unfolding lookup
only name h = elim (Bool-cases (text_eq a_class name)) [
  | inl same ↦ absurd (
      ground (
        arith,
        subst (λ n. is_owned prefixes n ≡ false) (sym ((text_eq_iff a_class name).0 same)) h,
        owned_a,
      ))
  | inr other ↦ rw (other) refl
]

merged_complete_example : differences (merged prefixes baseline partial) reference ≡ []
unfolding lookup
merged_complete_example =
    merged_complete prefixes baseline partial reference (refl, tt) outside inside only
