-- ===== src/Bench/Matrix/Edits.antt =====
-- benchmarks/incremental_matrix.py: `mutate` on the graph of `fixture`.
use rules_elide.Prelude.{
  ℕ, zero, suc, ◌≤◌, ◌≡◌, subst, refl, true, List, [], ◌∷◌, ◌++◌, Option, none, some, map, All, ok,
  arith,
}
use rules_elide.Prelude.Text.{Text, codes, text_eq}
use rules_elide.Prelude.Decimal.{decimal}
use rules_elide.Bench.Scenario.{Scenario, SourcePath, Sources, EditError}
use rules_elide.Bench.Scenario.Names.{has_name, has_name-behind, by_name-has_name, by_name-name}
use rules_elide.Bench.Matrix.{
  Language, java, kotlin, extension, core_classes, targets, target_sources, all_sources, fixture,
  Kind, changed, change, edits, change_all, mutate, clients, spare_target, facade_target,
  app_target,
}

abbrev pub file_name : Language → Text → Text
file_name language name = name ++ (codes "." ++ extension language)

abbrev pub name_of : SourcePath × Text → Text
name_of (path, text) = path.name

-- A run without an error that writes the files of the edits, in their order.
abbrev pub IsComplete : Language → List (Text × Kind) → Sources × Option EditError → Type 0
IsComplete language es (writes, error) =
    (error ≡ none) × (map name_of writes ≡ map (λ e. file_name language e.0) es)

change-found :
    (sources : Sources) (language : Language) (nonce : ℕ) (name : Text) (kind : Kind)
    → has_name sources (file_name language name) ≡ true
    → (w : SourcePath × Text) × (change sources language nonce (name, kind) ≡ ok w)
      × (name_of w ≡ file_name language name)
unfolding change
change-found sources language nonce name kind h =
    let ((path, text), found) = by_name-has_name sources (file_name language name) h in
    (
      (path, changed language kind nonce text),
      rw found refl,
      by_name-name sources (file_name language name) path text found,
    )

change_all-IsComplete :
    (sources : Sources) (language : Language) (nonce : ℕ) (es : List (Text × Kind))
    → All (λ e. has_name sources (file_name language e.0) ≡ true) es
    → IsComplete language es (change_all sources language nonce es)
unfolding change_all
change_all-IsComplete sources language nonce [] h = (refl, refl)
change_all-IsComplete sources language nonce ((name, kind) ∷ es) (h, hs) =
    let (w, made, named) = change-found sources language nonce name kind h in
    let (fine, names) = change_all-IsComplete sources language nonce es hs in
    rw (made, change_all) (fine, cc)

core_sources : Language → ℕ → Sources
core_sources language k =
    target_sources language (codes "core") (core_classes 0 (suc (suc (suc k))))

-- The files that the edits name, in a graph of three core files or more.
EditedNames : Language → Sources → Type 0
EditedNames language sources =
    All (λ name. has_name sources (file_name language name) ≡ true)
      (codes "Core0" ∷ codes "Core1" ∷ codes "Core2" ∷ codes "Spare" ∷ codes "Facade" ∷ [])

-- The sources of the other targets.
other_sources : Language → ℕ → Sources
other_sources language fanout =
    all_sources language
      (spare_target ∷ facade_target language ∷ (clients 0 fanout ++ app_target fanout ∷ []))

fixture_core :
    (language : Language) (k fanout : ℕ) (name : Text)
    → has_name (other_sources language fanout) name ≡ true
    → has_name (fixture language (suc (suc (suc k))) fanout) name ≡ true
unfolding fixture all_sources targets other_sources core_sources
fixture_core language k fanout name h =
    has_name-behind (core_sources language k) (other_sources language fanout) name h

other_names :
    (language : Language) (fanout : ℕ)
    → (has_name (other_sources language fanout) (file_name language (codes "Spare")) ≡ true)
      × (has_name (other_sources language fanout) (file_name language (codes "Facade")) ≡ true)
unfolding other_sources all_sources target_sources has_name text_eq extension
other_names java fanout = (refl, refl)
other_names kotlin fanout = (refl, refl)

core_names :
    (language : Language) (k fanout : ℕ)
    → (has_name (fixture language (suc (suc (suc k))) fanout) (file_name language (codes "Core0"))
        ≡ true)
      × (has_name (fixture language (suc (suc (suc k))) fanout) (file_name language (codes "Core1"))
          ≡ true)
      × (has_name (fixture language (suc (suc (suc k))) fanout) (file_name language (codes "Core2"))
          ≡ true)
unfolding fixture all_sources targets target_sources core_classes has_name text_eq decimal extension
core_names java k fanout = (refl, refl, refl)
core_names kotlin k fanout = (refl, refl, refl)

fixture_names :
    (language : Language) (k fanout : ℕ)
    → EditedNames language (fixture language (suc (suc (suc k))) fanout)
unfolding EditedNames
fixture_names language k fanout =
    let (core0, core1, core2) = core_names language k fanout in
    let (spare, facade) = other_names language fanout in
    (
      core0,
      (
        core1,
        (
          core2,
          (fixture_core language k fanout _ spare, (fixture_core language k fanout _ facade, tt)),
        ),
      ),
    )

AllKnown : Sources → Language → Option (List (Text × Kind)) → Type 0
AllKnown sources language none = Unit
AllKnown sources language (some es) = All (λ e. has_name sources (file_name language e.0) ≡ true) es

edits_known :
    (sources : Sources) (language : Language) (scenario : Scenario)
    → EditedNames language sources
    → AllKnown sources language (edits scenario)
unfolding edits EditedNames AllKnown
edits_known sources language Scenario.clean h = tt
edits_known sources language Scenario.full_rebuild h = tt
edits_known sources language Scenario.no_op h = tt
edits_known sources language Scenario.multi_file_body (core0, (core1, (core2, h))) =
    (core0, (core1, (core2, tt)))
edits_known sources language Scenario.multi_module_body
      (core0, (core1, (core2, (spare, (facade, h))))) =
    (core0, (facade, tt))
edits_known sources language Scenario.multi_module_api
      (core0, (core1, (core2, (spare, (facade, h))))) =
    (core0, (facade, tt))
edits_known sources language Scenario.public_module_api
      (core0, (core1, (core2, (spare, (facade, h))))) =
    (facade, tt)
edits_known sources language Scenario.unused_dependency_api (core0, (core1, (core2, (spare, h)))) =
    (spare, tt)
edits_known sources language scenario (core0, h) = (core0, tt)

edits-AllKnown :
    (sources : Sources) (language : Language) (scenario : Scenario) (es : List (Text × Kind))
    → EditedNames language sources
    → edits scenario ≡ some es
    → All (λ e. has_name sources (file_name language e.0) ≡ true) es
unfolding AllKnown
edits-AllKnown sources language scenario es h e =
    subst (AllKnown sources language) e (edits_known sources language scenario h)

-- In the graph of three core files or more, every scenario that has edits writes all of their files,
-- in order, and raises nothing.
pub mutate-fixture :
    (language : Language) (size fanout nonce : ℕ) (scenario : Scenario) (es : List (Text × Kind))
    → 3 ≤ size
    → edits scenario ≡ some es
    → IsComplete language es (mutate (fixture language size fanout) scenario language nonce)
unfolding mutate
mutate-fixture language (suc (suc (suc k))) fanout nonce scenario es h e =
    rw (e, mutate)
      (change_all-IsComplete (fixture language (suc (suc (suc k))) fanout) language nonce es (
        edits-AllKnown (fixture language (suc (suc (suc k))) fanout) language scenario es
          (fixture_names language k fanout) e))
mutate-fixture language (suc (suc zero)) fanout nonce scenario es h e = absurd (omega arith)
mutate-fixture language (suc zero) fanout nonce scenario es h e = absurd (omega arith)
mutate-fixture language zero fanout nonce scenario es h e = absurd (omega arith)
