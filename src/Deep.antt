-- ===== src/Deep.antt =====
-- benchmarks/deepgraph/gen.py: the modules of `gen_lang`, with their sources. A write is a path and
-- a text, in the order of the writes. `--layers` and `--width` are natural numbers.
pub mod Graph
use rules_elide.Prelude.{ℕ, zero, suc, ◌+◌, ◌-◌, ◌*◌, ◌%◌, List, [], ◌∷◌, ◌++◌}
use Prim.Native.Nat.{max}
use rules_elide.Prelude.Text.{Text, codes, join}
use rules_elide.Prelude.Decimal.{decimal}

pub data Language : Type 0 where
  kotlin : Language
  java : Language

-- A folder with its BUILD file: the sources, the name of the target and its dependencies.
pub record Module : Type 0 where
  pub folder : Text
  pub files : List (Text × Text)
  pub name : Text
  pub deps : List Text

core_file : Language → ℕ → Text × Text
core_file kotlin k = (
  join (codes "Core" ∷ decimal k ∷ codes ".kt" ∷ []),
  join (
      codes "package core\nclass Core"
      ∷ decimal k
      ∷ codes " : Base { override fun id(): Int = "
      ∷ decimal k
      ∷ codes "\n  fun calc(): Int = base("
      ∷ decimal k
      ∷ codes ") }\n"
      ∷ []),
)
core_file java k = (
  join (codes "Core" ∷ decimal k ∷ codes ".java" ∷ []),
  join (
      codes "package core;\npublic class Core"
      ∷ decimal k
      ∷ codes " implements Base { public int id(){return "
      ∷ decimal k
      ∷ codes ";} public int calc(){return Util.base("
      ∷ decimal k
      ∷ codes ");} }\n"
      ∷ []),
)

-- `for k in range(width)`, from `k` on.
core_files : Language → ℕ → ℕ → List (Text × Text)
core_files language k zero = []
core_files language k (suc width) = core_file language k ∷ core_files language (k + 1) width

pub core_base : Language → List (Text × Text)
core_base kotlin =
    (
      codes "Box.kt",
      codes
          "package core\nclass Box<T>(val value: T) { fun <R> map(f: (T) -> R): Box<R> = Box(f(value)) }\ndata class Rec(val a: Int, val b: String)\ninterface Base { fun id(): Int }\ninline fun twice(x: Int, f: (Int, Int) -> Int): Int = f(x, x)\nconst val VERSION: Int = 1\nfun base(n: Int): Int = n * 2\n",
    )
    ∷ []
core_base java =
    (
      codes "Box.java",
      codes
          "package core;\npublic class Box<T> { public final T value; public Box(T v){this.value=v;}\n  public <R> Box<R> map(java.util.function.Function<T,R> f){ return new Box<>(f.apply(value)); } }\n",
    )
    ∷ (
      codes "Consts.java",
      codes "package core;\npublic final class Consts { public static final int VERSION = 1; }\n",
    )
    ∷ (
      codes "Util.java",
      codes
          "package core;\npublic final class Util { public static int base(int n){ return n*2; } }\n",
    )
    ∷ (codes "Base.java", codes "package core;\npublic interface Base { int id(); }\n")
    ∷ []

-- The names of the previous module's entry, `K{i-1}_0`, where there is one.
prev_import : Language → ℕ → Text
prev_import language zero = []
prev_import kotlin (suc i) =
    join (codes "import mod" ∷ decimal i ∷ codes ".K" ∷ decimal i ∷ codes "_0\n" ∷ [])
prev_import java (suc i) =
    join (codes "import mod" ∷ decimal i ∷ codes ".K" ∷ decimal i ∷ codes "_0;\n" ∷ [])

prev_call : Language → ℕ → Text
prev_call language zero = []
prev_call kotlin (suc i) = join (codes " + K" ∷ decimal i ∷ codes "_0().v()" ∷ [])
prev_call java (suc i) = join (codes " + new K" ∷ decimal i ∷ codes "_0().v()" ∷ [])

entry_file : Language → ℕ → Text × Text
entry_file kotlin i = (
  join (codes "K" ∷ decimal i ∷ codes "_0.kt" ∷ []),
  join (
      codes "package mod"
      ∷ decimal i
      ∷ codes "\nimport core.Box\nimport core.twice\nimport core.VERSION\nimport core.base\n"
      ∷ prev_import kotlin i
      ∷ codes "class K"
      ∷ decimal i
      ∷ codes "_0 {\n  fun v(): Int {\n    val b = Box(VERSION + "
      ∷ decimal i
      ∷ codes ")\n    return twice(b.value) { x, y -> x + y } + base("
      ∷ decimal i
      ∷ codes ")"
      ∷ prev_call kotlin i
      ∷ codes "\n  }\n}\n"
      ∷ []),
)
entry_file java i = (
  join (codes "K" ∷ decimal i ∷ codes "_0.java" ∷ []),
  join (
      codes "package mod"
      ∷ decimal i
      ∷ codes ";\nimport core.Box;\nimport core.Consts;\nimport core.Util;\n"
      ∷ prev_import java i
      ∷ codes "public class K"
      ∷ decimal i
      ∷ codes "_0 {\n  public int v() {\n    Box<Integer> b = new Box<>(Consts.VERSION + "
      ∷ decimal i
      ∷ codes ");\n    return b.value + Util.base("
      ∷ decimal i
      ∷ codes ")"
      ∷ prev_call java i
      ∷ codes ";\n  }\n}\n"
      ∷ []),
)

-- File `j` of module `i`, which names core file `c`.
leaf_file : Language → ℕ → ℕ → ℕ → Text × Text
leaf_file kotlin i j c = (
  join (codes "K" ∷ decimal i ∷ codes "_" ∷ decimal j ∷ codes ".kt" ∷ []),
  join (
      codes "package mod"
      ∷ decimal i
      ∷ codes "\nimport core.Box\nimport core.Core"
      ∷ decimal c
      ∷ codes "\nclass K"
      ∷ decimal i
      ∷ codes "_"
      ∷ decimal j
      ∷ codes " { fun v(): Int = Box("
      ∷ decimal i
      ∷ codes " * 1000 + "
      ∷ decimal j
      ∷ codes ").map { it + Core"
      ∷ decimal c
      ∷ codes "().id() }.value }\n"
      ∷ []),
)
leaf_file java i j c = (
  join (codes "K" ∷ decimal i ∷ codes "_" ∷ decimal j ∷ codes ".java" ∷ []),
  join (
      codes "package mod"
      ∷ decimal i
      ∷ codes ";\nimport core.Box;\nimport core.Core"
      ∷ decimal c
      ∷ codes ";\npublic class K"
      ∷ decimal i
      ∷ codes "_"
      ∷ decimal j
      ∷ codes " {\n  public int v() { return new Box<>("
      ∷ decimal i
      ∷ codes "*1000+"
      ∷ decimal j
      ∷ codes ").map(x -> x + new Core"
      ∷ decimal c
      ∷ codes "().id()).value; }\n}\n"
      ∷ []),
)

-- `for j in range(1, width)`, from `j` on, where `left` of the range are left.
leaf_files : Language → ℕ → ℕ → ℕ → ℕ → List (Text × Text)
leaf_files language i width j zero = []
leaf_files language i width j (suc left) =
    leaf_file language i j (j % max 1 width) ∷ leaf_files language i width (j + 1) left

-- `"//%s/mod%d"` and the folders
abbrev language_name : Language → Text
language_name kotlin = codes "kotlin"
language_name java = codes "java"

abbrev pub label : Language → Text → Text
label language folder = join (codes "//" ∷ language_name language ∷ codes "/" ∷ folder ∷ [])

abbrev pub mod_name : ℕ → Text
mod_name i = codes "mod" ++ decimal i

unfoldable pub core_module : Language → ℕ → Module
unfolding core_files core_base core_file
core_module language width = record {
  folder = codes "core";
  files = core_base language ++ core_files language 0 width;
  name = codes "core";
  deps = [];
}

prev_deps : Language → ℕ → List Text
prev_deps language zero = []
prev_deps language (suc i) = label language (mod_name i) ∷ []

unfoldable pub layer_module : Language → ℕ → ℕ → Module
unfolding entry_file leaf_files leaf_file prev_import prev_call prev_deps
layer_module language width i = record {
  folder = mod_name i;
  files = entry_file language i ∷ leaf_files language i width 1 (width - 1);
  name = mod_name i;
  deps = label language (codes "core") ∷ prev_deps language i;
}

-- `for i in range(layers)`, from `i` on.
unfoldable pub layers_from : Language → ℕ → ℕ → ℕ → List Module
layers_from language width i zero = []
layers_from language width i (suc layers) =
    layer_module language width i ∷ layers_from language width (suc i) layers

-- `str(layers - 1)`
last_layer : ℕ → Text
last_layer zero = codes "-1"
last_layer (suc i) = decimal i

app_file : Language → ℕ → Text × Text
app_file kotlin layers = (
  codes "K.kt",
  join (
      codes "package app\nimport mod"
      ∷ last_layer layers
      ∷ codes ".K"
      ∷ last_layer layers
      ∷ codes "_0\nclass App { fun run(): Int = K"
      ∷ last_layer layers
      ∷ codes "_0().v() }\n"
      ∷ []),
)
app_file java layers = (
  codes "App.java",
  join (
      codes "package app;\nimport mod"
      ∷ last_layer layers
      ∷ codes ".K"
      ∷ last_layer layers
      ∷ codes "_0;\npublic class App { public int run(){ return new K"
      ∷ last_layer layers
      ∷ codes "_0().v(); } }\n"
      ∷ []),
)

unfoldable pub app_module : Language → ℕ → Module
unfolding app_file last_layer
app_module language layers = record {
  folder = codes "app";
  files = app_file language layers ∷ [];
  name = codes "app";
  deps = label language (codes "mod" ++ last_layer layers) ∷ [];
}

unfoldable pub gen_lang : Language → ℕ → ℕ → List Module
gen_lang language layers width =
    core_module language width
    ∷ (layers_from language width 0 layers ++ app_module language layers ∷ [])

-- What `main` adds to the total that it prints, for one language.
unfoldable pub printed_total : ℕ → ℕ → ℕ
printed_total layers width = width + layers * width + 1
