-- ===== src/Sbom/Enrich.antt =====
-- tools/sbom_enrich.py: `enrich`. An SPDX document is what the function reads and writes of it; the
-- rest of a package or relationship that it is given is of an unknown type.
pub mod New
pub mod Documents
pub mod Laws
use rules_elide.Prelude.{
  ℕ, Bool, true, false, ◌&&◌, ◌||◌, List, [], ◌∷◌, ◌++◌, Option, none, some, map, leb, ◌==◌,
  if◌then◌else◌,
}
use rules_elide.Prelude.Text.{Text, codes, text_eq}

pub record DepPackage : Type 0 where
  pub spdx_id : Text
  pub name : Text
  pub version_info : Text
  pub download_location : Text
  pub files_analyzed : Bool
  pub reference_category : Text
  pub reference_type : Text
  pub reference_locator : Text

-- A package of the document as it was, with its SPDXID if it has one, or one that is appended.
pub data Package (E : Type 0) : Type 0 where
  given : Option Text → E → Package E
  added : DepPackage → Package E

pub record Dependency : Type 0 where
  pub element : Text
  pub kind : Text
  pub related : Text

pub data Relationship (E : Type 0) : Type 0 where
  given : E → Relationship E
  added : Dependency → Relationship E

pub record Spdx (E : Type 0) : Type 0 where
  pub describes : Option (List Text)
  pub packages : Option (List (Package E))
  pub relationships : Option (List (Relationship E))

-- `p.get("SPDXID")`
unfoldable pub spdx_id_of : {E : Type 0} → Package E → Option Text
spdx_id_of (given id extra) = id
spdx_id_of (added p) = some p.spdx_id

within : ℕ → ℕ → ℕ → Bool
within first last c = leb first c && leb c last

-- `re.sub(r"[^A-Za-z0-9.-]", "-", name)`, at one character.
clean : ℕ → ℕ
unfolding within
clean c =
    if within b'A' b'Z' c || within b'a' b'z' c || within b'0' b'9' c || c == b'.' || c == b'-'
    then c
    else b'-'

unfoldable pub dep_id : Text → Text
unfolding clean
dep_id name = codes "SPDXRef-Package-bazeldep-" ++ map clean name

unfoldable pub dep_package : Text × Text → DepPackage
dep_package (name, version) = record {
  spdx_id = dep_id name;
  name = name;
  version_info = version;
  download_location = codes "NOASSERTION";
  files_analyzed = false;
  reference_category = codes "PACKAGE-MANAGER";
  reference_type = codes "purl";
  reference_locator = codes "pkg:generic/bazel/" ++ (name ++ (codes "@" ++ version));
}

unfoldable pub depends_on : Text → Text × Text → Dependency
depends_on root (name, version) = record {
  element = root;
  kind = codes "DEPENDS_ON";
  related = dep_id name;
}

-- `spdxid in existing`, of a set that may hold None.
unfoldable pub contains : List (Option Text) → Text → Bool
contains [] id = false
contains (none ∷ ids) id = contains ids id
contains (some other ∷ ids) id = text_eq other id || contains ids id

unfoldable pub root_of : Option (List Text) → Text
root_of none = codes "SPDXRef-DOCUMENT"
root_of (some []) = codes "SPDXRef-DOCUMENT"
root_of (some (first ∷ rest)) = first

unfoldable pub or_empty {ℓ} : {A : Type ℓ} → Option (List A) → List A
or_empty none = []
or_empty (some xs) = xs

-- The loop over the dependencies: the set of ids, and the two lists that it appends to.
module _ {E : Type 0} (root : Text) where
  enrich_loop :
      List (Option Text)
      → List (Package E)
      → List (Relationship E)
      → List (Text × Text)
      → List (Package E) × List (Relationship E)
  enrich_loop existing packages relationships [] = (packages, relationships)
  enrich_loop existing packages relationships ((name, version) ∷ deps) =
      let known = contains existing (dep_id name) in
      enrich_loop (if known then existing else some (dep_id name) ∷ existing)
        (if known then packages else packages ++ added (dep_package (name, version)) ∷ [])
        (if known
          then relationships
          else relationships ++ added (depends_on root (name, version)) ∷ [])
        deps

unfoldable pub enrich : {E : Type 0} → Spdx E → List (Text × Text) → Spdx E
unfolding enrich_loop or_empty root_of
enrich spdx deps =
    let packages = or_empty spdx.packages in
    let relationships = or_empty spdx.relationships in
    let (packages', relationships') =
      enrich_loop (root_of spdx.describes) (map spdx_id_of packages) packages relationships deps in
    record spdx { packages = some packages'; relationships = some relationships' }
