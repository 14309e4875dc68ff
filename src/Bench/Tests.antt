-- ===== src/Bench/Tests.antt =====
-- Runs of the edits of the production workloads.
use rules_elide.Prelude.{◌≡◌, ◌≢◌, refl, arith, ok, List, [], ◌∷◌, ◌++◌, none, some}
use rules_elide.Prelude.Text.{Text, codes, strip, text_eq}
use rules_elide.Prelude.Search.{count, replace_first, split_first}
use rules_elide.Bench.Scenario.{Scenario, SourcePath, Sources, by_name, key_error}
use rules_elide.Bench.Edit.{
  Project, replace_once, main_file, edit_comment, body_edit, replaced, main_edit, edited, written,
  edit_more, more_edits, further, is_edit, mutate,
}
use rules_elide.Bench.Edit.Laws.{mutate-nonce}
use rules_elide.Bench.Matrix
use rules_elide.Bench.Matrix.{java, kotlin, fixture, targets, edits, changed, Kind}
use rules_elide.Bench.Matrix.Graph.{IsAcyclic, targets-IsAcyclic}
use rules_elide.Bench.Matrix.Edits.{IsComplete, mutate-fixture}

abbrev string_utils : SourcePath
string_utils = record { directory = codes "core"; name = codes "StringUtils.java" }

abbrev old_text : Text
old_text = codes "f() { return cs == null || cs.length() == 0; }"

abbrev new_text : Text
new_text = codes "f() { return cs == null || cs.isEmpty(); }"

abbrev snapshot : Sources
snapshot = (string_utils, old_text) ∷ []

replaced_once :
    replace_once old_text
      (codes "return cs == null || cs.length() == 0;")
      (codes "return cs == null || cs.isEmpty();")
    ≡ ok new_text
unfolding replace_once count replace_first split_first strip
replaced_once = refl

-- A snapshot without CharUtils.java: the first file is written before the error.
half_edited :
    mutate Project.commons_lang snapshot Scenario.multi_file_body 7
    ≡ ((string_utils, new_text ++ edit_comment 7) ∷ [], some (key_error (codes "CharUtils.java")))
unfolding mutate is_edit written edited by_name main_file main_edit replaced body_edit further
    edit_more more_edits replace_once count replace_first split_first strip text_eq
half_edited = refl

mutate-nonce_example :
    mutate Project.commons_lang snapshot Scenario.multi_file_body 8
    ≢ ((string_utils, new_text ++ edit_comment 7) ∷ [], none)
mutate-nonce_example =
    mutate-nonce Project.commons_lang snapshot Scenario.multi_file_body 7 8
      (string_utils, new_text ++ edit_comment 7) [] [] (some (key_error (codes "CharUtils.java")))
      none (omega arith) half_edited

targets-IsAcyclic_example : IsAcyclic [] (targets kotlin 3 2)
targets-IsAcyclic_example = targets-IsAcyclic kotlin 3 2

abbrev module_edits : List (Text × Kind)
module_edits = (codes "Core0", Kind.body) ∷ (codes "Facade", Kind.body) ∷ []

mutate-fixture_example :
    IsComplete java module_edits
      (Matrix.mutate (fixture java 3 2) Scenario.multi_module_body java 1)
unfolding edits
mutate-fixture_example =
    mutate-fixture java 3 2 1 Scenario.multi_module_body module_edits (omega arith) refl
