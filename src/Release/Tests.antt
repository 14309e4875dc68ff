-- ===== src/Release/Tests.antt =====
-- elide/private/versions.bzl, elide/extensions.bzl: versions and modules as builds name them, some of
-- tests/versions_test.bzl.
use mathlib.Core.List.{Mem}
use rules_elide.Prelude.{
  ◌≡◌, ◌≢◌, refl, ◌⊎◌, Bool, true, false, List, [], ◌∷◌, ◌++◌, Option, none, some, map, All, Result,
  ok, err,
}
use rules_elide.Prelude.Text.{sorted_set, pair_eq, Text, codes, text_eq, text_lt, strip}
use rules_elide.Prelude.Dict.{lookup}
use rules_elide.Prelude.Search.{replace, split_first}
use rules_elide.Release.Semver.{
  before_first, split, numbers, is_number, all_digits, number_from, has_char, rank_of, rank_lt,
  parse_semver, insert_version, sort_versions, select_version,
}
use rules_elide.Release.Semver.Select.{NotBelow, select_version-greatest}
use rules_elide.Release.Semver.Prereleases.{prerelease_ranks}
use rules_elide.Release.Pins.{elide_versions, python_versions}
use rules_elide.Release.Urls.{
  download_url, python_download_url, format, release_tag, archive_ext, binary_ext,
}
use rules_elide.Release.Hub.{Toolchain, hub_platforms, hub_toolchains, toolchains_of, toolchain_of}
use rules_elide.Release.Extension.Toolchains.{toolchain_binary, repo_binary, elide_impl-toolchains}
use rules_elide.Release.Extension.Tags.{InstallTag, UseTag, Module, Host, Wiring}
use rules_elide.Release.Extension.Use.{
  wire_release, check_overlays, use_downloads, texts_eq, wire_use, split_key,
}
use rules_elide.Release.Extension.Install.{
  elide_impl, collect, add_module, add_installs, add_install, add_uses, wire_install, wire_version,
  check_python, install_downloads, get_pin,
}
use rules_elide.Release.Extension.Targets.{repo_name, repo_targets}
use rules_elide.Release.Extension.Runs.{Untagged, IsHollow, elide_impl-use}
use rules_elide.Release.Extension.Own.{own_names, IsOwn, elide_impl-IsOwn}
use rules_elide.Release.Extension.Fetches.{IsFetched, platform_repos, elide_impl-succeeds}
use rules_elide.Release.Extension.Overlaid.{HasOverlay}
use rules_elide.Release.Extension.Installs.{IsRelease, elide_impl-version, elide_impl-HasOverlay}

tens_above_nines : select_version (codes "1.9.0" ∷ codes "1.10.0" ∷ []) ≡ some (codes "1.10.0")
unfolding select_version sort_versions insert_version parse_semver rank_lt rank_of numbers is_number
    all_digits number_from split before_first has_char text_eq text_lt
tens_above_nines = refl

latest_above_all : select_version (codes "1.6.0" ∷ codes "latest" ∷ []) ≡ some (codes "latest")
unfolding select_version sort_versions insert_version parse_semver rank_lt rank_of numbers is_number
    all_digits number_from split before_first has_char text_eq text_lt
latest_above_all = refl

no_number_below_all : select_version (codes "0.0.1" ∷ codes "nightly" ∷ []) ≡ some (codes "0.0.1")
unfolding select_version sort_versions insert_version parse_semver rank_lt rank_of numbers is_number
    all_digits number_from split before_first has_char text_eq text_lt
no_number_below_all = refl

ten_below_two :
    select_version (codes "1.6.0-rc.10" ∷ codes "1.6.0-rc.2" ∷ []) ≡ some (codes "1.6.0-rc.2")
unfolding select_version sort_versions insert_version parse_semver rank_lt rank_of numbers is_number
    all_digits number_from split before_first has_char text_eq text_lt
ten_below_two = refl

built_in_url :
    download_url [] [] (codes "1.6.0") (codes "linux") (codes "amd64")
    ≡ some
        (codes "https://github.com/elide-dev/elide/releases/download/v1.6.0/elide.linux-amd64.tgz")
unfolding download_url format lookup text_eq release_tag archive_ext
built_in_url = refl

own_url :
    download_url
      (codes "file:///releases/{version}/elide.{os}-{cpu}.{ext}")
      []
      (codes "1.6.0")
      (codes "windows")
      (codes "amd64")
    ≡ some (codes "file:///releases/1.6.0/elide.windows-amd64.zip")
unfolding download_url format lookup text_eq release_tag archive_ext
own_url = refl

overlay_url :
    python_download_url [] [] (codes "1.6.2") (codes "windows") (codes "amd64")
    ≡ some (
        codes
          "https://github.com/elide-dev/elide/releases/download/v1.6.2/elide.python.windows-amd64.zip")
unfolding python_download_url download_url format lookup text_eq release_tag archive_ext replace
    split_first strip
overlay_url = refl

select_version-greatest_example :
    (v : Text) × (select_version (codes "1.6.0-rc.2" ∷ codes "1.6.0" ∷ []) ≡ some v)
    × Mem v (codes "1.6.0-rc.2" ∷ codes "1.6.0" ∷ [])
    × All (NotBelow v) (codes "1.6.0-rc.2" ∷ codes "1.6.0" ∷ [])
select_version-greatest_example = select_version-greatest (codes "1.6.0-rc.2") (codes "1.6.0" ∷ [])

core_numbers : numbers (split b'.' (codes "1.6.0")) ≡ some (1 ∷ 6 ∷ 0 ∷ [])
unfolding numbers is_number all_digits number_from split
core_numbers = refl

no_plus : has_char b'+' (codes "1.6.0") ≡ false
unfolding has_char
no_plus = refl

no_dash : has_char b'-' (codes "1.6.0") ≡ false
unfolding has_char
no_dash = refl

prerelease_ranks_example :
    (rank_lt (parse_semver (codes "1.6.0-rc.10")) (parse_semver (codes "1.6.0")) ≡ true)
    × (rank_lt (parse_semver (codes "1.6.0-rc.10")) (parse_semver (codes "1.6.0-rc.2"))
        ≡ text_lt (codes "rc.10") (codes "rc.2"))
prerelease_ranks_example =
    prerelease_ranks (codes "1.6.0") (codes "rc.10") (codes "rc.2") (1 ∷ 6 ∷ 0 ∷ []) no_plus no_dash
      core_numbers

abbrev install_of : Text → Bool → InstallTag
install_of version python = record {
  channel = codes "nightly";
  python = python;
  python_url_template = [];
  repo_prefix = codes "elide";
  url_template = [];
  version = version;
}

-- A build on the default release, and a dependency of it on an older one, with Python or without.
abbrev build_of : Bool → List Module
build_of python =
    record { is_root = true; install = install_of (codes "1.6.2") false ∷ []; use_tags = [] }
    ∷ record { is_root = false; install = install_of (codes "1.6.0") python ∷ []; use_tags = [] }
    ∷ []

abbrev linux_host : Host
linux_host = record { name = codes "Linux"; arch = codes "amd64" }

abbrev nothing_declared : Wiring
nothing_declared = record {
  repos = [];
  hub = record { version = []; repo_prefix = codes "elide"; platforms = [] };
  reproducible = true;
}

abbrev or_nothing : {E : Type 0} → Result E Wiring → Wiring
or_nothing (ok w) = w
or_nothing (err e) = nothing_declared

abbrev python_wiring : Wiring
python_wiring = or_nothing (elide_impl linux_host (build_of true))

build_runs : elide_impl linux_host (build_of true) ≡ ok python_wiring
unfolding elide_impl collect add_module add_installs add_install add_uses wire_install wire_version
    check_python install_downloads get_pin pair_eq select_version sort_versions insert_version
    parse_semver rank_lt rank_of numbers is_number all_digits number_from split before_first
    has_char text_eq text_lt lookup elide_versions python_versions
build_runs = refl

elide_impl-version_example :
    Mem python_wiring.hub.version (codes "1.6.2" ∷ codes "1.6.0" ∷ [])
    × All (NotBelow python_wiring.hub.version) (codes "1.6.2" ∷ codes "1.6.0" ∷ [])
    × All (IsRelease python_wiring.hub.version) python_wiring.repos
elide_impl-version_example =
    elide_impl-version linux_host (build_of true) (codes "1.6.2") (codes "1.6.0" ∷ []) python_wiring
      refl refl build_runs

elide_impl-HasOverlay_example : All (HasOverlay true python_wiring.hub.version) python_wiring.repos
elide_impl-HasOverlay_example =
    elide_impl-HasOverlay linux_host (build_of true) python_wiring refl build_runs

abbrev no_toolchains : Option (List Toolchain) → List Toolchain
no_toolchains none = []
no_toolchains (some ts) = ts

abbrev python_toolchains : List Toolchain
python_toolchains = no_toolchains (hub_toolchains python_wiring.hub)

hub_builds : hub_toolchains python_wiring.hub ≡ some python_toolchains
unfolding hub_toolchains hub_platforms toolchains_of toolchain_of split_key split_first strip lookup
    text_eq binary_ext elide_impl collect add_module add_installs add_install add_uses wire_install
    wire_version check_python install_downloads get_pin pair_eq select_version sort_versions
    insert_version parse_semver rank_lt rank_of numbers is_number all_digits number_from split
    before_first has_char text_lt elide_versions python_versions
hub_builds = refl

elide_impl-toolchains_example :
    (Untagged (build_of true) × IsHollow python_wiring)
    ⊎ (map toolchain_binary python_toolchains ≡ map repo_binary python_wiring.repos)
elide_impl-toolchains_example =
    elide_impl-toolchains linux_host (build_of true) python_wiring python_toolchains build_runs
      hub_builds

both_pinned : All (λ v. lookup v elide_versions ≢ none) (codes "1.6.2" ∷ codes "1.6.0" ∷ [])
unfolding lookup elide_versions text_eq
both_pinned = (λ e. cc, (λ e. cc, tt))

elide_impl-succeeds_example :
    (w : Wiring) × (elide_impl linux_host (build_of false) ≡ ok w)
    × (repo_targets w.repos ≡ platform_repos w.hub.repo_prefix)
    × All (IsFetched w.hub.repo_prefix w.hub.version) w.repos
elide_impl-succeeds_example =
    elide_impl-succeeds linux_host (build_of false) (codes "1.6.2") (codes "1.6.0" ∷ []) refl refl
      refl ((refl, tt), ((refl, tt), tt)) both_pinned

-- A local directory of the root, and an install tag next to it.
abbrev local_use : UseTag
local_use = record {
  channel = codes "nightly";
  integrity = [];
  local_path = codes "/opt/elide";
  python_integrity = [];
  python_url_template = [];
  repo_prefix = codes "elide";
  url_template = [];
  version = [];
}

abbrev local_build : List Module
local_build =
    record {
      is_root = true;
      install = install_of (codes "1.6.2") false ∷ [];
      use_tags = local_use ∷ [];
    }
    ∷ []

local_overrides : elide_impl linux_host local_build ≡ wire_use linux_host local_use
local_overrides = elide_impl-use linux_host local_build local_use refl

-- Without any tag there is no repository, and the hub names the four platforms all the same.
hollow_run :
    (elide_impl linux_host [] ≡ ok nothing_declared)
    × (map
          (λ p. nothing_declared.hub.repo_prefix ++ b'_' ∷ p)
          (hub_platforms nothing_declared.hub.platforms)
        ≡ codes "elide_linux_amd64"
          ∷ codes "elide_linux_arm64"
          ∷ codes "elide_macos_arm64"
          ∷ codes "elide_windows_amd64"
          ∷ [])
unfolding elide_impl collect wire_install select_version sort_versions hub_platforms
hollow_run = (refl, refl)

-- A build on archives of its own for one platform, with an overlay.
abbrev own_use : UseTag
own_use = record {
  channel = codes "nightly";
  integrity = (codes "linux_amd64", codes "sha256-a") ∷ [];
  local_path = [];
  python_integrity = (codes "linux_amd64", codes "sha256-b") ∷ [];
  python_url_template = codes "file:///python.{os}.{ext}";
  repo_prefix = codes "elide";
  url_template = codes "file:///elide.{os}.{ext}";
  version = [];
}

abbrev own_build : List Module
own_build =
    record {
      is_root = true;
      install = install_of (codes "1.6.2") true ∷ [];
      use_tags = local_use ∷ own_use ∷ [];
    }
    ∷ []

abbrev own_wiring : Wiring
own_wiring = or_nothing (elide_impl linux_host own_build)

own_runs : elide_impl linux_host own_build ≡ ok own_wiring
unfolding elide_impl collect add_module add_installs add_install add_uses wire_use wire_release
    check_overlays use_downloads split_key split_first strip texts_eq text_eq lookup sorted_set
own_runs = refl

elide_impl-IsOwn_example :
    (map repo_name own_wiring.repos ≡ own_names (codes "elide") (codes "linux_amd64" ∷ []))
    × All (IsOwn own_use) own_wiring.repos
elide_impl-IsOwn_example =
    elide_impl-IsOwn linux_host own_build own_use own_wiring refl refl own_runs
