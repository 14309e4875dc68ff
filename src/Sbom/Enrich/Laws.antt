-- ===== src/Sbom/Enrich/Laws.antt =====
-- `enrich` against a description by the dependencies that it adds.
use rules_elide.Prelude.{
  ◌≡◌, refl, ap, sym, subst, ◌∙◌, List, [], ◌∷◌, ◌++◌, append_assoc, append-nil, Option, some, map,
  All, Bool-cases, inl, inr,
}
use mathlib.Core.List.{map-append}
use rules_elide.Prelude.Text.{Text}
use rules_elide.Sbom.Enrich.New.{
  new_deps, Subsequence, AreKnown, ids_of, new_deps-Subsequence, new_deps-AreFresh, new_deps-known,
  new_deps-collision, new_deps-AreKnown,
}
use rules_elide.Sbom.Enrich.Documents.{
  IsDepId, dep_id-IsDepId, AreNew, AreFresh-AreNew, AllHaveIds, AreKnown-AllHaveIds, items, ids_in,
  ids_in-spdx_id_of, items-or_empty, root_in, root_in-root_of, package_of, relationship_of,
}
use rules_elide.Sbom.Enrich.{
  Package, Relationship, Spdx, spdx_id_of, dep_id, dep_package, depends_on, contains, root_of,
  or_empty, enrich_loop, enrich,
}

ids_of_packages :
    (E : Type 0) (deps : List (Text × Text))
    → map spdx_id_of (map (package_of {E = E}) deps) ≡ ids_of deps
unfolding spdx_id_of
ids_of_packages E [] = refl
ids_of_packages E ((name, version) ∷ deps) =
    ap (λ t. some (dep_id name) ∷ t) (ids_of_packages E deps)

All-dep_ids : (deps : List (Text × Text)) → All (λ d. IsDepId d.0 (dep_id d.0)) deps
All-dep_ids [] = tt
All-dep_ids ((name, version) ∷ deps) = (dep_id-IsDepId name, All-dep_ids deps)

module _ {E : Type 0} where
  enrich_loop-new_deps :
      (root : Text) (ids : List (Option Text)) (packages : List (Package E))
      (relationships : List (Relationship E)) (deps : List (Text × Text))
      → enrich_loop root ids packages relationships deps ≡ (
        packages ++ map package_of (new_deps ids deps),
        relationships ++ map (relationship_of root) (new_deps ids deps),
      )
  unfolding enrich_loop new_deps dep_package depends_on
  enrich_loop-new_deps root ids packages relationships [] = rw (append-nil, append-nil)
  enrich_loop-new_deps root ids packages relationships ((name, version) ∷ deps) =
      elim (Bool-cases (contains ids (dep_id name))) [
        | inl h ↦ rw h (enrich_loop-new_deps root ids packages relationships deps)
        | inr h ↦ rw h (
            enrich_loop-new_deps root (some (dep_id name) ∷ ids)
              (packages ++ package_of (name, version) ∷ [])
              (relationships ++ relationship_of root (name, version) ∷ []) deps
            ∙ rw (append_assoc, append_assoc))
      ]

  abbrev pub known_ids : Spdx E → List (Option Text)
  known_ids s = map spdx_id_of (or_empty s.packages)

  known_ids-ids_in : (s : Spdx E) → known_ids s ≡ ids_in (items s.packages)
  known_ids-ids_in s =
      ids_in-spdx_id_of (or_empty s.packages) ∙ ap ids_in (items-or_empty s.packages)

  enrich-new_deps :
      (s : Spdx E) (deps : List (Text × Text))
      → enrich s deps ≡ record s {
        packages = some (or_empty s.packages ++ map package_of (new_deps (known_ids s) deps));
        relationships = some (
            or_empty s.relationships
            ++ map (relationship_of (root_of s.describes)) (new_deps (known_ids s) deps));
      }
  unfolding enrich
  enrich-new_deps s deps = rw enrich_loop-new_deps

  known_ids-enrich :
      (s : Spdx E) (deps : List (Text × Text))
      → known_ids (enrich s deps) ≡ known_ids s ++ ids_of (new_deps (known_ids s) deps)
  unfolding or_empty
  known_ids-enrich s deps = rw (enrich-new_deps, map-append, ids_of_packages)

  enrich-AreKnown :
      (s : Spdx E) (deps : List (Text × Text)) → AreKnown (known_ids (enrich s deps)) deps
  enrich-AreKnown s deps =
      subst (λ ids. AreKnown ids deps) (sym (known_ids-enrich s deps))
        (new_deps-AreKnown (known_ids s) deps)

  -- What `enrich` does to a document: there are dependencies, in the order given and with some left
  -- out, whose ids are distinct and none of them in the document. For each of them a package with
  -- its id, name, version and package URL is appended to the packages, and to the relationships
  -- that the root, which is the first package described or else the document, DEPENDS_ON that id;
  -- nothing else changes. An id is the prefix and the name with a dash for each character that is
  -- no letter, digit, dot or dash, and every dependency given has its id in the result.
  pub enrich-appends :
      (s : Spdx E) (deps : List (Text × Text))
      → (new : List (Text × Text)) × Subsequence new deps
        × AreNew (ids_in (items s.packages)) new
        × All (λ d. IsDepId d.0 (dep_id d.0)) new
        × (enrich s deps ≡ record s {
          packages = some (items s.packages ++ map package_of new);
          relationships =
              some (items s.relationships ++ map (relationship_of (root_in s.describes)) new);
        })
        × AllHaveIds (ids_in (items (enrich s deps).packages)) deps
  enrich-appends s deps =
      let new = new_deps (known_ids s) deps in
      (
        new,
        new_deps-Subsequence (known_ids s) deps,
        subst (λ ids. AreNew ids new) (known_ids-ids_in s)
            (AreFresh-AreNew (known_ids s) new (new_deps-AreFresh (known_ids s) deps)),
        All-dep_ids new,
        enrich-new_deps s deps
            ∙ rw
                (
                  items-or_empty s.packages,
                  items-or_empty s.relationships,
                  root_in-root_of s.describes,
                )
                refl,
        subst (λ ids. AllHaveIds ids deps) (known_ids-ids_in (enrich s deps))
            (AreKnown-AllHaveIds (known_ids (enrich s deps)) deps (enrich-AreKnown s deps)),
      )

  kept :
      (s : Spdx E) (deps : List (Text × Text))
      → record (enrich s deps) {
        packages = some (or_empty (enrich s deps).packages);
        relationships = some (or_empty (enrich s deps).relationships);
      }
        ≡ enrich s deps
  unfolding enrich
  kept s deps = refl

  -- Enriching a document once more with the same dependencies changes nothing.
  pub enrich-enrich :
      (s : Spdx E) (deps : List (Text × Text)) → enrich (enrich s deps) deps ≡ enrich s deps
  enrich-enrich s deps =
      enrich-new_deps (enrich s deps) deps
      ∙ rw (new_deps-known (known_ids (enrich s deps)) deps (enrich-AreKnown s deps))
          (rw (append-nil, append-nil) (kept s deps))

  -- Two dependencies whose names differ only in characters that the id replaces: the document gets
  -- a package for the first alone, as if the second were not declared.
  pub enrich-collision :
      (s : Spdx E) (first second version other : Text)
      → dep_id first ≡ dep_id second
      → enrich s ((first, version) ∷ (second, other) ∷ []) ≡ enrich s ((first, version) ∷ [])
  enrich-collision s first second version other e =
      enrich-new_deps s ((first, version) ∷ (second, other) ∷ [])
      ∙ rw (new_deps-collision (known_ids s) first second version other e)
          (sym (enrich-new_deps s ((first, version) ∷ [])))
