-- ===== src/Sbom/Enrich/New.antt =====
-- The dependencies of a list that `enrich` adds, given the ids that a document has.
use rules_elide.Prelude.{
  ◌≡◌, refl, ap, sym, subst, ◌∙◌, true, false, ◌||◌, List, [], ◌∷◌, ◌++◌, arith, Option, none, some,
  map, if◌then◌else◌, Bool-cases, inl, inr,
}
use rules_elide.Prelude.Text.{Text, text_eq_iff}
use rules_elide.Sbom.Enrich.{dep_id, contains}

-- The dependencies whose id is neither known nor the id of one before.
unfoldable pub new_deps : List (Option Text) → List (Text × Text) → List (Text × Text)
new_deps ids [] = []
new_deps ids ((name, version) ∷ deps) =
    let skipped = new_deps ids deps in
    let kept = (name, version) ∷ new_deps (some (dep_id name) ∷ ids) deps in
    if contains ids (dep_id name) then skipped else kept

module _ (ids : List (Option Text)) (name version : Text) (deps : List (Text × Text)) where
  new_deps-skip :
      contains ids (dep_id name) ≡ true → new_deps ids ((name, version) ∷ deps) ≡ new_deps ids deps
  unfolding new_deps
  new_deps-skip h = rw h

  new_deps-keep :
      contains ids (dep_id name) ≡ false
      → new_deps ids ((name, version) ∷ deps)
        ≡ (name, version) ∷ new_deps (some (dep_id name) ∷ ids) deps
  unfolding new_deps
  new_deps-keep h = rw h

contains_self : (id : Text) (ids : List (Option Text)) → contains (some id ∷ ids) id ≡ true
unfolding contains
contains_self id ids = ground (arith, text_eq_iff id id)

pub new_deps-collision :
    (ids : List (Option Text)) (first second version other : Text)
    → dep_id first ≡ dep_id second
    → new_deps ids ((first, version) ∷ (second, other) ∷ []) ≡ new_deps ids ((first, version) ∷ [])
new_deps-collision ids first second version other e =
    elim (Bool-cases (contains ids (dep_id first))) [
      | inl h ↦
          new_deps-skip ids first version ((second, other) ∷ []) h
          ∙ new_deps-skip ids second other [] (rw e at h)
          ∙ sym (new_deps-skip ids first version [] h)
      | inr h ↦
          new_deps-keep ids first version ((second, other) ∷ []) h
          ∙ ap (λ t. (first, version) ∷ t)
              (new_deps-skip (some (dep_id first) ∷ ids) second other []
                (rw (← e) (contains_self (dep_id first) ids)))
          ∙ sym (new_deps-keep ids first version [] h)
    ]

-- The first list is the second with elements left out.
pub data Subsequence {A : Type 0} : List A → List A → Type 0 where
  done : Subsequence [] []
  skip : {xs ys : List A} (y : A) → Subsequence xs ys → Subsequence xs (y ∷ ys)
  keep : {xs ys : List A} (y : A) → Subsequence xs ys → Subsequence (y ∷ xs) (y ∷ ys)

-- No id is among the known ones or that of an earlier element.
abbrev pub AreFresh : List (Option Text) → List (Text × Text) → Type 0
AreFresh ids [] = Unit
AreFresh ids ((name, version) ∷ deps) =
    (contains ids (dep_id name) ≡ false) × AreFresh (some (dep_id name) ∷ ids) deps

-- Every dependency has its id among the known ones.
abbrev pub AreKnown : List (Option Text) → List (Text × Text) → Type 0
AreKnown ids [] = Unit
AreKnown ids ((name, version) ∷ deps) = (contains ids (dep_id name) ≡ true) × AreKnown ids deps

pub new_deps-Subsequence :
    (ids : List (Option Text)) (deps : List (Text × Text)) → Subsequence (new_deps ids deps) deps
unfolding new_deps
new_deps-Subsequence ids [] = done
new_deps-Subsequence ids ((name, version) ∷ deps) = elim (Bool-cases (contains ids (dep_id name))) [
  | inl h ↦ rw h (skip (name, version) (new_deps-Subsequence ids deps))
  | inr h ↦ rw h (keep (name, version) (new_deps-Subsequence (some (dep_id name) ∷ ids) deps))
]

pub new_deps-AreFresh :
    (ids : List (Option Text)) (deps : List (Text × Text)) → AreFresh ids (new_deps ids deps)
unfolding new_deps
new_deps-AreFresh ids [] = tt
new_deps-AreFresh ids ((name, version) ∷ deps) = elim (Bool-cases (contains ids (dep_id name))) [
  | inl h ↦ rw h (new_deps-AreFresh ids deps)
  | inr h ↦ rw h (h, new_deps-AreFresh (some (dep_id name) ∷ ids) deps)
]

pub new_deps-known :
    (ids : List (Option Text)) (deps : List (Text × Text))
    → AreKnown ids deps
    → new_deps ids deps ≡ []
unfolding new_deps
new_deps-known ids [] h = refl
new_deps-known ids ((name, version) ∷ deps) (h, hs) = rw h (new_deps-known ids deps hs)

contains-append :
    (xs ys : List (Option Text)) (id : Text)
    → contains (xs ++ ys) id ≡ (contains xs id || contains ys id)
unfolding contains
contains-append [] ys id = refl
contains-append (none ∷ xs) ys id = contains-append xs ys id
contains-append (some x ∷ xs) ys id = ground (arith, contains-append xs ys id)

AreKnown-weaken :
    (xs ys : List (Option Text)) (deps : List (Text × Text))
    → ((id : Text) → contains xs id ≡ true → contains ys id ≡ true)
    → AreKnown xs deps
    → AreKnown ys deps
AreKnown-weaken xs ys [] h k = tt
AreKnown-weaken xs ys ((name, version) ∷ deps) h (k, ks) =
    (h (dep_id name) k, AreKnown-weaken xs ys deps h ks)

abbrev pub ids_of : List (Text × Text) → List (Option Text)
ids_of = map (λ d. some (dep_id d.0))

contains_front :
    (xs ys : List (Option Text)) (id : Text) → contains xs id ≡ true → contains (xs ++ ys) id ≡ true
contains_front xs ys id h = ground (arith, contains-append xs ys id)

contains_move :
    (x : Option Text) (xs ys : List (Option Text)) (id : Text)
    → contains (x ∷ (xs ++ ys)) id ≡ true
    → contains (xs ++ x ∷ ys) id ≡ true
unfolding contains
contains_move none xs ys id k =
    ground (arith, contains-append xs (none ∷ ys) id, contains-append xs ys id)
contains_move (some x) xs ys id k =
    ground (arith, contains-append xs (some x ∷ ys) id, contains-append xs ys id)

pub new_deps-AreKnown :
    (ids : List (Option Text)) (deps : List (Text × Text))
    → AreKnown (ids ++ ids_of (new_deps ids deps)) deps
new_deps-AreKnown ids [] = tt
new_deps-AreKnown ids ((name, version) ∷ deps) = elim (Bool-cases (contains ids (dep_id name))) [
  | inl h ↦
      subst family (sym (new_deps-skip ids name version deps h)) (
        contains_front ids (ids_of (new_deps ids deps)) (dep_id name) h,
        new_deps-AreKnown ids deps,
      )
  | inr h ↦
      let known = some (dep_id name) in
      let more = ids_of (new_deps (known ∷ ids) deps) in
      subst family (sym (new_deps-keep ids name version deps h)) (
        contains_move known ids more (dep_id name) (contains_self (dep_id name) (ids ++ more)),
        AreKnown-weaken (known ∷ (ids ++ more)) (ids ++ known ∷ more) deps
            (λ id k. contains_move known ids more id k) (new_deps-AreKnown (known ∷ ids) deps),
      )
]
  where
    family : List (Text × Text) → Type 0
    family new = AreKnown (ids ++ ids_of new) ((name, version) ∷ deps)
