-- ===== src/Bench/Matrix.antt =====
-- benchmarks/incremental_matrix.py: `source`, the target graph and the source files of `fixture`,
-- and `mutate`. The BUILD files that `fixture` writes beside the sources are not modelled: a target
-- is what they are made of.
pub mod Graph
pub mod Edits
pub mod Nonces
use rules_elide.Prelude.{
  ℕ, zero, suc, ◌+◌, List, [], ◌∷◌, ◌++◌, Option, none, some, map, Result, ok, err, ◌>>=◌,
}
use rules_elide.Prelude.Text.{Text, codes}
use rules_elide.Prelude.Decimal.{decimal}
use rules_elide.Prelude.Search.{replace, replace_first, insert_before_last}
use rules_elide.Bench.Scenario.{Scenario, SourcePath, Sources, EditError, key_error, by_name}

pub data Language : Type 0 where
  java : Language
  kotlin : Language

unfoldable pub extension : Language → Text
extension java = codes "java"
extension kotlin = codes "kt"

unfoldable pub source : Language → Text → Text → Text → Text → Text → Text
source java package_name name expression extra magic =
    codes "package "
    ++ package_name
    ++ codes "; public final class "
    ++ name
    ++ codes " {\npublic static int value() { return "
    ++ expression
    ++ codes "; }\npublic static final int MAGIC = "
    ++ magic
    ++ codes ";\n"
    ++ extra
    ++ codes "\n}\n"
source kotlin package_name name expression extra magic =
    codes "package "
    ++ package_name
    ++ codes "\nobject "
    ++ name
    ++ codes " {\nfun value(): Int = "
    ++ expression
    ++ codes "\ninline fun magic(): Int = "
    ++ magic
    ++ codes "\n"
    ++ extra
    ++ codes "\n}\n"

-- A call of `target`: its classes are their names, each with its expression.
pub record Target : Type 0 where
  pub package_name : Text
  pub name : Text
  pub classes : List (Text × Text)
  pub deps : List Text

-- `{f"Core{i}": str(i + 1) for i in range(size)}`, from `i` on.
unfoldable pub core_classes : ℕ → ℕ → List (Text × Text)
core_classes i zero = []
core_classes i (suc size) = (codes "Core" ++ decimal i, decimal (i + 1)) ∷ core_classes (i + 1) size

unfoldable pub special_of : Language → Text
special_of java = codes "core.Core0.MAGIC"
special_of kotlin = codes "core.Core0.magic()"

abbrev pub client : ℕ → Text
client i = codes "client" ++ decimal i

-- The clients from the `i`-th on.
unfoldable pub clients : ℕ → ℕ → List Target
clients i zero = []
clients i (suc fanout) =
    record {
      package_name = codes "clients";
      name = client i;
      classes = (codes "Client" ++ decimal i, codes "facade.Facade.value()") ∷ [];
      deps = codes "//facade" ∷ [];
    }
    ∷ clients (i + 1) fanout

-- `" + ".join(f"clients.Client{i}.value()" for i in range(fanout))`, from `i` on.
unfoldable pub sum_of_clients : ℕ → ℕ → Text
sum_of_clients i zero = []
sum_of_clients i (suc zero) = codes "clients.Client" ++ (decimal i ++ codes ".value()")
sum_of_clients i (suc (suc fanout)) =
    (codes "clients.Client" ++ (decimal i ++ codes ".value()"))
    ++ (codes " + " ++ sum_of_clients (i + 1) (suc fanout))

-- `[f"//clients:client{i}" for i in range(fanout)]`, from `i` on.
unfoldable pub client_labels : ℕ → ℕ → List Text
client_labels i zero = []
client_labels i (suc fanout) = (codes "//clients:" ++ client i) ∷ client_labels (i + 1) fanout

abbrev pub core_target : ℕ → Target
core_target size = record {
  package_name = codes "core";
  name = codes "core";
  classes = core_classes 0 size;
  deps = [];
}

abbrev pub spare_target : Target
spare_target = record {
  package_name = codes "spare";
  name = codes "spare";
  classes = (codes "Spare", codes "1") ∷ [];
  deps = [];
}

abbrev pub facade_target : Language → Target
facade_target language = record {
  package_name = codes "facade";
  name = codes "facade";
  classes =
      (codes "Facade", codes "core.Core0.value() + core.Core1.value() + " ++ special_of language)
      ∷ [];
  deps = codes "//core" ∷ codes "//spare" ∷ [];
}

abbrev pub app_target : ℕ → Target
app_target fanout = record {
  package_name = codes "app";
  name = codes "app";
  classes = (codes "App", sum_of_clients 0 fanout) ∷ [];
  deps = client_labels 0 fanout;
}

-- The calls of `target` in `fixture`, in order.
unfoldable pub targets : Language → ℕ → ℕ → List Target
targets language size fanout =
    core_target size
    ∷ spare_target
    ∷ facade_target language
    ∷ (clients 0 fanout ++ app_target fanout ∷ [])

abbrev pub path_of : Language → Text → Text → SourcePath
path_of language package_name name = record {
  directory = package_name;
  name = name ++ (codes "." ++ extension language);
}

-- The sources of one target.
unfoldable pub target_sources : Language → Text → List (Text × Text) → Sources
target_sources language package_name [] = []
target_sources language package_name ((name, expression) ∷ classes) =
    (
      path_of language package_name name,
      source language package_name name expression [] (codes "1"),
    )
    ∷ target_sources language package_name classes

unfoldable pub all_sources : Language → List Target → Sources
all_sources language [] = []
all_sources language (t ∷ ts) =
    target_sources language t.package_name t.classes ++ all_sources language ts

unfoldable pub fixture : Language → ℕ → ℕ → Sources
fixture language size fanout = all_sources language (targets language size fanout)

pub data Kind : Type 0 where
  comment : Kind
  body : Kind
  private : Kind
  public : Kind
  special : Kind

unfoldable pub addition : Language → Text → ℕ → Text
addition java visibility nonce =
    visibility
    ++ (codes " static int added"
        ++ (decimal nonce ++ (codes "() { return " ++ (decimal nonce ++ codes "; }\n"))))
addition kotlin visibility nonce =
    visibility
    ++ (codes " fun added"
        ++ (decimal nonce ++ (codes "(): Int = " ++ (decimal nonce ++ codes "\n"))))

unfoldable pub changed : Language → Kind → ℕ → Text → Text
changed language comment nonce original =
    original ++ (codes "// edit " ++ (decimal nonce ++ codes "\n"))
changed java body nonce original =
    replace_first original (codes "return ") (codes "return " ++ (decimal nonce ++ codes " + "))
changed kotlin body nonce original =
    replace_first original (codes "fun value(): Int = ")
      (codes "fun value(): Int = " ++ (decimal nonce ++ codes " + "))
changed language private nonce original =
    insert_before_last b'}' (addition language (codes "private") nonce) original
changed language public nonce original =
    insert_before_last b'}' (addition language (codes "public") nonce) original
changed java special nonce original =
    replace original (codes "MAGIC = 1;") (codes "MAGIC = " ++ decimal (nonce + 1) ++ codes ";")
changed kotlin special nonce original =
    replace original (codes "magic(): Int = 1") (codes "magic(): Int = " ++ decimal (nonce + 1))

-- `change(name, kind)`: the path and the text that it writes.
unfoldable pub change : Sources → Language → ℕ → Text × Kind → Result EditError (SourcePath × Text)
change sources language nonce (name, kind) =
    by_name sources (name ++ (codes "." ++ extension language))
    >>= (λ found. ok (found.0, changed language kind nonce found.1))

-- `edits[scenario]`; `full_rebuild` is not a key.
unfoldable pub edits : Scenario → Option (List (Text × Kind))
edits Scenario.clean = some []
edits Scenario.full_rebuild = none
edits Scenario.no_op = some []
edits Scenario.comment = some ((codes "Core0", comment) ∷ [])
edits Scenario.body = some ((codes "Core0", body) ∷ [])
edits Scenario.private_member = some ((codes "Core0", private) ∷ [])
edits Scenario.internal_module_api = some ((codes "Core0", public) ∷ [])
edits Scenario.public_module_api = some ((codes "Facade", public) ∷ [])
edits Scenario.multi_file_body =
    some ((codes "Core0", body) ∷ (codes "Core1", body) ∷ (codes "Core2", body) ∷ [])
edits Scenario.multi_module_body = some ((codes "Core0", body) ∷ (codes "Facade", body) ∷ [])
edits Scenario.multi_module_api = some ((codes "Core0", public) ∷ (codes "Facade", public) ∷ [])
edits Scenario.unused_dependency_api = some ((codes "Spare", public) ∷ [])
edits Scenario.inline_or_constant = some ((codes "Core0", special) ∷ [])

-- The writes of the edits, up to one that fails.
unfoldable pub change_all : Sources → Language → ℕ → List (Text × Kind) → Sources × Option EditError
change_all sources language nonce [] = ([], none)
change_all sources language nonce (edit ∷ more) =
    let rest = change_all sources language nonce more in
    elim (change sources language nonce edit) [
      | ok write ↦ (write ∷ rest.0, rest.1)
      | err e ↦ ([], some e)
    ]

unfoldable pub mutate : Sources → Scenario → Language → ℕ → Sources × Option EditError
mutate sources scenario language nonce = elim (edits scenario) [
  | none ↦ ([], some (key_error (codes "full_rebuild")))
  | some es ↦ change_all sources language nonce es
]
