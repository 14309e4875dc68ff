-- ===== src/Bench/Edit.antt =====
-- benchmarks/commons_lang_fixture.py and benchmarks/kotlin_builder_fixture.py: `replace_once` and
-- the two `mutate` functions, which differ in the tables below alone. A run is the files it has
-- written, in order, and the error that ended it, if one did.
pub mod Replace
pub mod Laws
pub mod Runs
use rules_elide.Prelude.{
  ℕ, Bool, true, false, List, [], ◌∷◌, ◌++◌, Option, none, some, ◌==◌, if◌then◌else◌, Result, ok,
  err, ◌>>=◌,
}
use rules_elide.Prelude.Text.{Text, codes}
use rules_elide.Prelude.Decimal.{decimal}
use rules_elide.Prelude.Search.{count, replace_first, insert_before_last}
use rules_elide.Bench.Scenario.{
  Scenario, SourcePath, Sources, EditError, revision_mismatch, by_name,
}

unfoldable pub replace_once : Text → Text → Text → Result EditError Text
replace_once text old new =
    if count text old == 1 then ok (replace_first text old new) else err (revision_mismatch old)

-- The two production workloads.
pub data Project : Type 0 where
  commons_lang : Project
  kotlin_builder : Project

unfoldable pub main_file : Project → Scenario → Text
main_file commons_lang Scenario.public_module_api = codes "Facade.java"
main_file commons_lang _ = codes "StringUtils.java"
main_file kotlin_builder Scenario.public_module_api = codes "Facade.kt"
main_file kotlin_builder _ = codes "Flagfile.kt"

-- `f"\n// Benchmark edit {nonce}\n"`
unfoldable pub edit_comment : ℕ → Text
edit_comment nonce = codes "\n// Benchmark edit " ++ (decimal nonce ++ codes "\n")

unfoldable pub body_edit : Project → Text × Text
body_edit commons_lang =
    (codes "return cs == null || cs.length() == 0;", codes "return cs == null || cs.isEmpty();")
body_edit kotlin_builder = (
  codes "if (t.startsWith(\"--\")) {",
  codes "if (t.length >= 2 && t[0] == '-' && t[1] == '-') {",
)

unfoldable pub visibility : Scenario → Text
visibility Scenario.private_member = codes "private"
visibility _ = codes "public"

unfoldable pub added_member : Project → Scenario → ℕ → Text
added_member commons_lang scenario nonce =
    visibility scenario
    ++ (codes " static int benchmarkAdded"
        ++ (decimal nonce ++ (codes "() { return " ++ (decimal nonce ++ codes "; }\n"))))
added_member kotlin_builder scenario nonce =
    visibility scenario
    ++ (codes " fun benchmarkAdded"
        ++ (decimal nonce ++ (codes "(): Int = " ++ (decimal nonce ++ codes "\n"))))

-- The further files of `multi_file_body`, each with what is replaced by what.
unfoldable pub more_edits : Project → List (Text × Text × Text)
more_edits commons_lang =
    (codes "CharUtils.java", codes "return ch < 128;", codes "return ch <= 127;")
    ∷ (
      codes "BooleanUtils.java",
      codes "return Boolean.TRUE.equals(bool);",
      codes "return bool != null && bool.booleanValue();",
    )
    ∷ []
more_edits kotlin_builder =
    (codes "Router.kt", codes "j.contains(it)", codes "j.indexOf(it) >= 0")
    ∷ (codes "BuiltinPlugins.kt", codes "if (rewrites.isEmpty())", codes "if (rewrites.size == 0)")
    ∷ []

-- A body edit, with the comment that makes it unique.
unfoldable pub replaced : ℕ → Text × Text → Text → Result EditError Text
replaced nonce (old, new) text =
    replace_once text old new >>= (λ out. ok (out ++ edit_comment nonce))

-- The new text of the file that the scenario names.
unfoldable pub main_edit : Project → Scenario → ℕ → Text → Result EditError Text
main_edit project Scenario.comment nonce text = ok (text ++ edit_comment nonce)
main_edit project Scenario.body nonce text = replaced nonce (body_edit project) text
main_edit project Scenario.multi_file_body nonce text = replaced nonce (body_edit project) text
main_edit project scenario nonce text =
    ok (insert_before_last b'}' (added_member project scenario nonce) text)

-- A file's edit, looked up by its name: the path and its new text.
unfoldable pub edited :
    Sources → Text → (Text → Result EditError Text) → Result EditError (SourcePath × Text)
edited sources name edit =
    by_name sources name >>= (λ found. edit found.1 >>= (λ text. ok (found.0, text)))

abbrev pub Run : Type 0
Run = List (SourcePath × Text) × Option EditError

-- `path.write_text(text)` and what follows, or the exception in its place.
unfoldable pub written : Result EditError (SourcePath × Text) → Run → Run
written (ok write) rest = (write ∷ rest.0, rest.1)
written (err e) rest = ([], some e)

unfoldable pub edit_more : Sources → ℕ → List (Text × Text × Text) → Run
edit_more sources nonce [] = ([], none)
edit_more sources nonce ((name, old, new) ∷ edits) =
    written (edited sources name (replaced nonce (old, new))) (edit_more sources nonce edits)

unfoldable pub further : Project → Sources → Scenario → ℕ → Run
further project sources Scenario.multi_file_body nonce =
    edit_more sources nonce (more_edits project)
further project sources _ nonce = ([], none)

unfoldable pub is_edit : Scenario → Bool
is_edit Scenario.clean = false
is_edit Scenario.no_op = false
is_edit _ = true

unfoldable pub mutate : Project → Sources → Scenario → ℕ → Run
mutate project sources scenario nonce =
    if is_edit scenario
    then written (edited sources (main_file project scenario) (main_edit project scenario nonce))
        (further project sources scenario nonce)
    else ([], none)
