-- ===== src/Bench/Scenario.antt =====
-- The edit scenarios and the source trees of benchmarks/incremental_matrix.py and of the two
-- production workloads beside it.
pub mod Names
use rules_elide.Prelude.{◌≡◌, List, [], ◌∷◌, Result, ok, err, if◌then◌else◌, Bool}
use rules_elide.Prelude.Text.{Text, text_eq}

-- `SCENARIOS`
pub data Scenario : Type 0 where
  clean : Scenario
  full_rebuild : Scenario
  no_op : Scenario
  comment : Scenario
  body : Scenario
  private_member : Scenario
  internal_module_api : Scenario
  public_module_api : Scenario
  multi_file_body : Scenario
  multi_module_body : Scenario
  multi_module_api : Scenario
  unused_dependency_api : Scenario
  inline_or_constant : Scenario

-- A `Path`, split into its parent and its name.
pub record SourcePath : Type 0 where
  pub directory : Text
  pub name : Text

-- The dict from paths to texts that a workload hands to `mutate`.
abbrev pub Sources : Type 0
Sources = List (SourcePath × Text)

pub data EditError : Type 0 where
  key_error : Text → EditError
  revision_mismatch : Text → EditError

-- `{path.name: path for path in sources}[name]`, with the text `sources[path]`: the last path of the
-- name. The paths are the keys of a dict, so that each has one text.
unfoldable pub by_name : Sources → Text → Result EditError (SourcePath × Text)
by_name [] name = err (key_error name)
by_name ((path, text) ∷ sources) name =
    let last = by_name sources name in
    elim last [
      | ok found ↦ ok found
      | err e ↦ if text_eq path.name name then ok (path, text) else err e
    ]
