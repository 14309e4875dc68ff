-- ===== src/Sbom/Enrich/Documents.antt =====
-- What `enrich` of tools/sbom_enrich.py finds in a document and adds to one, in the words of SPDX:
-- the ids of packages, the root, the package and the relationship of a dependency.
use rules_elide.Prelude.{
  ℕ, ◌≤◌, ◌≡◌, ◌⊎◌, ◌↔◌, refl, ap, true, false, List, [], ◌∷◌, ◌++◌, Option, none, some, map, All,
  arith,
}
use rules_elide.Prelude.Text.{Text, codes, text_eq_iff}
use rules_elide.Sbom.Enrich.New.{AreFresh, AreKnown}
use rules_elide.Sbom.Enrich.{
  Package, Relationship, spdx_id_of, clean, dep_id, contains, root_of, or_empty,
}

-- A letter, a digit, a dot or a dash.
abbrev pub IsAllowed : ℕ → Type 0
IsAllowed c =
    ((b'A' ≤ c) × (c ≤ b'Z'))
    ⊎ ((b'a' ≤ c) × (c ≤ b'z'))
    ⊎ ((b'0' ≤ c) × (c ≤ b'9'))
    ⊎ (c ≡ b'.')
    ⊎ (c ≡ b'-')

-- The second text is the first, with a dash for each character that is not allowed.
abbrev pub IsCleaned : Text → Text → Type 0
IsCleaned [] [] = Unit
IsCleaned [] (d ∷ t) = ⊥
IsCleaned (c ∷ s) [] = ⊥
IsCleaned (c ∷ s) (d ∷ t) =
    ((IsAllowed c × (d ≡ c)) ⊎ ((¬ IsAllowed c) × (d ≡ b'-'))) × IsCleaned s t

-- The id that a package of that name gets.
abbrev pub IsDepId : Text → Text → Type 0
IsDepId name id =
    (cleaned : Text) × (id ≡ codes "SPDXRef-Package-bazeldep-" ++ cleaned) × IsCleaned name cleaned

clean-IsAllowed : (c : ℕ) → (IsAllowed c × (clean c ≡ c)) ⊎ ((¬ IsAllowed c) × (clean c ≡ b'-'))
unfolding clean
clean-IsAllowed c = ground arith

map-clean-IsCleaned : (name : Text) → IsCleaned name (map clean name)
map-clean-IsCleaned [] = tt
map-clean-IsCleaned (c ∷ name) = (clean-IsAllowed c, map-clean-IsCleaned name)

pub dep_id-IsDepId : (name : Text) → IsDepId name (dep_id name)
unfolding dep_id
dep_id-IsDepId name = (map clean name, refl, map-clean-IsCleaned name)

-- The id is one of the list.
abbrev pub HasId : List (Option Text) → Text → Type 0
HasId [] id = ⊥
HasId (o ∷ ids) id = (o ≡ some id) ⊎ HasId ids id

contains-HasId : (ids : List (Option Text)) (id : Text) → (contains ids id ≡ true) ↔ HasId ids id
unfolding contains
contains-HasId [] id = ground arith
contains-HasId (none ∷ ids) id = ground (arith, contains-HasId ids id)
contains-HasId (some other ∷ ids) id = ground (arith, text_eq_iff other id, contains-HasId ids id)

-- No dependency has an id that is known or that of an earlier one.
abbrev pub AreNew : List (Option Text) → List (Text × Text) → Type 0
AreNew ids [] = Unit
AreNew ids ((name, version) ∷ deps) =
    (¬ HasId ids (dep_id name)) × AreNew (some (dep_id name) ∷ ids) deps

pub AreFresh-AreNew :
    (ids : List (Option Text)) (deps : List (Text × Text)) → AreFresh ids deps → AreNew ids deps
AreFresh-AreNew ids [] f = tt
AreFresh-AreNew ids ((name, version) ∷ deps) (f, fs) = (
  λ h. cc (f, (contains-HasId ids (dep_id name)).1 h),
  AreFresh-AreNew (some (dep_id name) ∷ ids) deps fs,
)

-- Every dependency has its id among the ids.
abbrev pub AllHaveIds : List (Option Text) → List (Text × Text) → Type 0
AllHaveIds ids = All λ d. (id : Text) × IsDepId d.0 id × HasId ids id

pub AreKnown-AllHaveIds :
    (ids : List (Option Text)) (deps : List (Text × Text)) → AreKnown ids deps → AllHaveIds ids deps
AreKnown-AllHaveIds ids [] k = tt
AreKnown-AllHaveIds ids ((name, version) ∷ deps) (k, ks) = (
  (dep_id name, dep_id-IsDepId name, (contains-HasId ids (dep_id name)).0 k),
  AreKnown-AllHaveIds ids deps ks,
)

abbrev pub items {ℓ} : {A : Type ℓ} → Option (List A) → List A
items none = []
items (some xs) = xs

-- The id of each package that has one.
abbrev pub ids_in : {E : Type 0} → List (Package E) → List (Option Text)
ids_in [] = []
ids_in (Package.given id extra ∷ ps) = id ∷ ids_in ps
ids_in (Package.added p ∷ ps) = some p.spdx_id ∷ ids_in ps

pub ids_in-spdx_id_of : {E : Type 0} (ps : List (Package E)) → map spdx_id_of ps ≡ ids_in ps
unfolding spdx_id_of
ids_in-spdx_id_of [] = refl
ids_in-spdx_id_of (Package.given id extra ∷ ps) = ap (λ ids. id ∷ ids) (ids_in-spdx_id_of ps)
ids_in-spdx_id_of (Package.added p ∷ ps) = ap (λ ids. some p.spdx_id ∷ ids) (ids_in-spdx_id_of ps)

pub items-or_empty {ℓ} : {A : Type ℓ} (o : Option (List A)) → or_empty o ≡ items o
unfolding or_empty
items-or_empty none = refl
items-or_empty (some xs) = refl

-- The first package that the document describes, or the document itself.
abbrev pub root_in : Option (List Text) → Text
root_in (some (first ∷ rest)) = first
root_in (some []) = codes "SPDXRef-DOCUMENT"
root_in none = codes "SPDXRef-DOCUMENT"

pub root_in-root_of : (describes : Option (List Text)) → root_of describes ≡ root_in describes
unfolding root_of
root_in-root_of none = refl
root_in-root_of (some []) = refl
root_in-root_of (some (first ∷ rest)) = refl

-- The package of a dependency, with its name, its version and its package URL.
abbrev pub package_of : {E : Type 0} → Text × Text → Package E
package_of (name, version) = Package.added (record {
  spdx_id = dep_id name;
  name = name;
  version_info = version;
  download_location = codes "NOASSERTION";
  files_analyzed = false;
  reference_category = codes "PACKAGE-MANAGER";
  reference_type = codes "purl";
  reference_locator = codes "pkg:generic/bazel/" ++ (name ++ (codes "@" ++ version));
})

-- The root depends on the package of the dependency.
abbrev pub relationship_of : {E : Type 0} → Text → Text × Text → Relationship E
relationship_of root (name, version) =
    Relationship.added (record { element = root; kind = codes "DEPENDS_ON"; related = dep_id name })
