-- ===== src/Sbom/Tests.antt =====
-- Runs of the SBOM tool, and its theorems at concrete inputs.
use rules_elide.Prelude.{
  All, ℕ, ◌≡◌, refl, List, [], ◌∷◌, ◌++◌, Option, none, some, map, arith, ok, err,
}
use rules_elide.Prelude.Text.{Text, codes, strip, text_eq}
use rules_elide.Prelude.Decimal.{decimal}
use rules_elide.Prelude.Dict.{Dict, lookup}
use rules_elide.Sbom.Command.{Json, CommandError, enriched, printed, finish, main}
use rules_elide.Sbom.Parse.{
  is_space, skip_spaces, until_quote, quoted, assignment, match_dep, parse_bazel_deps,
}
use rules_elide.Sbom.Parse.Laws.{
  Layout, Declaration, IsDeclaration, join_declarations, parse_bazel_deps-join_declarations,
}
use rules_elide.Sbom.Enrich.{Spdx, Package, dep_id, enrich}
use rules_elide.Sbom.Enrich.New.{Subsequence}
use rules_elide.Sbom.Enrich.Documents.{
  IsDepId, AreNew, AllHaveIds, items, ids_in, package_of, relationship_of,
}
use rules_elide.Sbom.Enrich.Laws.{enrich-appends, enrich-enrich, enrich-collision}

-- A module file with a declaration on two lines, and one for development.
abbrev module_text : Text
module_text =
    codes
      "module(name = \"r\")\nbazel_dep(name=\"a\",\n version = \"1\")\nbazel_dep(name = \"b\", version = \"2\", dev_dependency = True)\n"

parsed_deps : parse_bazel_deps module_text ≡ (codes "a", codes "1") ∷ (codes "b", codes "2") ∷ []
unfolding parse_bazel_deps match_dep assignment quoted until_quote skip_spaces is_space strip
parsed_deps = refl

abbrev layout : Layout
layout = record {
  before_name = codes "";
  after_name = codes " ";
  before_value = codes " ";
  after_value = codes "";
  before_version = codes "\n  ";
  after_version = codes "";
  before_number = codes "";
}

abbrev rules_java : Declaration
rules_java = record {
  layout = layout;
  name = codes "rules_java";
  version = codes "9";
  behind = codes ")\n# bazel_dep is next\n";
}

rules_java-IsDeclaration : IsDeclaration rules_java
unfolding is_space
rules_java-IsDeclaration = record {
  layout = record {
    before_name = tt;
    after_name = (refl, tt);
    before_value = (refl, tt);
    after_value = tt;
    before_version = (refl, (refl, (refl, tt)));
    after_version = tt;
    before_number = tt;
  };
  name = ground arith;
  version = ground arith;
  behind = ground arith;
}

parse_bazel_deps-join_declarations_example :
    parse_bazel_deps (codes "module()\n" ++ join_declarations (rules_java ∷ []))
    ≡ (codes "rules_java", codes "9") ∷ []
parse_bazel_deps-join_declarations_example =
    parse_bazel_deps-join_declarations (codes "module()\n") (rules_java ∷ []) (ground arith)
      (rules_java-IsDeclaration, tt)

abbrev document : Spdx ℕ
document = record {
  describes = some (codes "root" ∷ []);
  packages = some (Package.given (some (codes "root")) 7 ∷ []);
  relationships = none;
}

abbrev platforms : Text × Text
platforms = (codes "platforms", codes "1.1.0")

enrich-enrich_example :
    enrich (enrich document (platforms ∷ [])) (platforms ∷ []) ≡ enrich document (platforms ∷ [])
enrich-enrich_example = enrich-enrich document (platforms ∷ [])

enrich-collision_example :
    enrich document ((codes "a_b", codes "1") ∷ (codes "a-b", codes "2") ∷ [])
    ≡ enrich document ((codes "a_b", codes "1") ∷ [])
unfolding dep_id
enrich-collision_example =
    enrich-collision document (codes "a_b") (codes "a-b") (codes "1") (codes "2") refl

enrich-appends_example :
    (new : List (Text × Text)) × Subsequence new (platforms ∷ platforms ∷ [])
    × AreNew (ids_in (items document.packages)) new
    × All (λ d. IsDepId d.0 (dep_id d.0)) new
    × (enrich document (platforms ∷ platforms ∷ []) ≡ record document {
      packages = some (items document.packages ++ map package_of new);
      relationships = some (map (relationship_of (codes "root")) new);
    })
    × AllHaveIds
        (ids_in (items (enrich document (platforms ∷ platforms ∷ [])).packages))
        (platforms ∷ platforms ∷ [])
enrich-appends_example = enrich-appends document (platforms ∷ platforms ∷ [])

-- Files that hold a text or a document.
data SampleContents : Type 0 where
  text_file : Text → SampleContents
  document_file : Spdx ℕ → SampleContents

sample_load : SampleContents → Option (Spdx ℕ)
sample_load (text_file s) = none
sample_load (document_file s) = some s

sample_read : SampleContents → Option Text
sample_read (text_file s) = some s
sample_read (document_file s) = none

abbrev sample_json : Json ℕ
sample_json = record {
  Contents = SampleContents;
  load = sample_load;
  read = sample_read;
  dump = document_file;
}

abbrev sample_files : Dict SampleContents
sample_files =
    (codes "s.json", document_file document)
    ∷ (
      codes "MODULE.bazel",
      text_file (codes "bazel_dep(name = \"platforms\", version = \"1.1.0\")"),
    )
    ∷ []

abbrev sample_argv : List Text
sample_argv = codes "sbom_enrich.py" ∷ codes "s.json" ∷ codes "MODULE.bazel" ∷ []

sample_line :
    (main sample_json sample_argv sample_files).1
    ≡ ok (codes "enriched s.json with 1 bazel_dep package(s)")
unfolding main finish enriched printed sample_load sample_read lookup text_eq decimal
    parse_bazel_deps match_dep assignment quoted until_quote skip_spaces is_space strip
sample_line = refl

-- The paths in the wrong order: the module file is no JSON.
swapped_fails :
    (main sample_json (codes "p" ∷ codes "MODULE.bazel" ∷ codes "s.json" ∷ []) sample_files).1
    ≡ err CommandError.not_json
unfolding main finish enriched sample_load lookup text_eq
swapped_fails = refl
