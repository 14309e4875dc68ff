-- ===== src/Release/Hub.antt =====
-- elide/private/hub.bzl: the repository that registers a toolchain for each platform.
use rules_elide.Prelude.{List, [], ◌∷◌, ◌++◌, Option, none, some, map}
use rules_elide.Prelude.Text.{Text, codes, join}
use rules_elide.Prelude.Dict.{lookup}
use rules_elide.Release.Urls.{platforms, os_constraints, cpu_constraints, binary_ext}
use rules_elide.Release.Extension.Tags.{Hub, platform_key}
use rules_elide.Release.Extension.Use.{split_key}

-- What `_TOOLCHAIN_TEMPLATE` is filled with.
pub record Toolchain : Type 0 where
  pub name : Text
  pub repo : Text
  pub version : Text
  pub os_constraint : Text
  pub cpu_constraint : Text
  pub bin_ext : Text

-- The platforms of the hub, or all where it names none.
unfoldable pub hub_platforms : List Text → List Text
hub_platforms [] = map platform_key platforms
hub_platforms (p ∷ ps) = p ∷ ps

infixl 5 ◌>>=◌
abbrev ◌>>=◌ {ℓ κ} : {A : Type ℓ} {B : Type κ} → Option A → (A → Option B) → Option B
none >>= f = none
some a >>= f = f a

-- The toolchain of `p`; none is the error of a key that is no platform.
unfoldable pub toolchain_of : Hub → Text → Option Toolchain
toolchain_of hub p = do
  (os, cpu) ← split_key p
  os_constraint ← lookup os os_constraints
  cpu_constraint ← lookup cpu cpu_constraints
  some (record {
    name = p;
    repo = hub.repo_prefix ++ b'_' ∷ p;
    version = hub.version;
    os_constraint = os_constraint;
    cpu_constraint = cpu_constraint;
    bin_ext = binary_ext os;
  })

unfoldable pub toolchains_of : Hub → List Text → Option (List Toolchain)
toolchains_of hub [] = some []
toolchains_of hub (p ∷ ps) = do
  toolchain ← toolchain_of hub p
  more ← toolchains_of hub ps
  some (toolchain ∷ more)

-- `_elide_toolchains_hub_impl`, before the text is made of them.
unfoldable pub hub_toolchains : Hub → Option (List Toolchain)
hub_toolchains hub = toolchains_of hub (hub_platforms hub.platforms)

-- `_TOOLCHAIN_TEMPLATE.format(...)`
toolchain_text : Toolchain → Text
toolchain_text t = join (
    codes "elide_toolchain(\n    name = \""
    ∷ t.name
    ∷ codes "_impl\",\n    binary = \"@"
    ∷ t.repo
    ∷ codes "//:bin/elide"
    ∷ t.bin_ext
    ∷ codes "\",\n    compile_tool_files = [\"@"
    ∷ t.repo
    ∷ codes "//:elide_compile_files\"],\n    jextract_tool_files = [\"@"
    ∷ t.repo
    ∷ codes "//:elide_jextract_files\"],\n    kotlin_stdlib = [\"@"
    ∷ t.repo
    ∷ codes "//:kotlin_stdlib_jars\"],\n    python_tool_files = [\"@"
    ∷ t.repo
    ∷ codes "//:elide_python_files\"],\n    tool_files = [\"@"
    ∷ t.repo
    ∷ codes "//:elide_native_image_files\"],\n    version = \""
    ∷ t.version
    ∷ codes "\",\n)\n\ntoolchain(\n    name = \""
    ∷ t.name
    ∷ codes "\",\n    exec_compatible_with = [\n        \""
    ∷ t.os_constraint
    ∷ codes "\",\n        \""
    ∷ t.cpu_constraint
    ∷ codes "\",\n    ],\n    target_compatible_with = [\n        \""
    ∷ t.os_constraint
    ∷ codes "\",\n        \""
    ∷ t.cpu_constraint
    ∷ codes "\",\n    ],\n    toolchain = \":"
    ∷ t.name
    ∷ codes "_impl\",\n    toolchain_type = \"@rules_elide//elide:toolchain_type\",\n)\n\n"
    ∷ [])

-- The BUILD file that the repository consists of.
unfoldable pub hub_build : Hub → Option Text
unfolding toolchain_text
hub_build hub = do
  toolchains ← hub_toolchains hub
  some (
      codes
        "load(\"@rules_elide//elide:toolchain.bzl\", \"elide_toolchain\")\n\npackage(default_visibility = [\"//visibility:public\"])\n\n"
      ++ join (map toolchain_text toolchains))
