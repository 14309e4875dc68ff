-- ===== src/Release/Extension/Install.antt =====
-- elide/extensions.bzl: `_elide_impl`.
use rules_elide.Prelude.{
  Bool, true, false, ◌||◌, List, [], ◌∷◌, ◌++◌, Option, none, some, Result, ok, err, ◌>>=◌,
  if◌then◌else◌,
}
use rules_elide.Prelude.Text.{Text, codes, pair_eq}
use rules_elide.Prelude.Dict.{lookup}
use rules_elide.Release.Semver.{select_version}
use rules_elide.Release.Pins.{Platform, Integrities, elide_versions, python_versions}
use rules_elide.Release.Urls.{platforms, default_channel, is_empty}
use rules_elide.Release.Extension.Tags.{
  InstallTag, UseTag, Module, Host, Repo, elide_download, Wiring, ExtensionError, unknown_version,
  no_overlay, platform_key,
}
use rules_elide.Release.Extension.Use.{wire_use}

-- `integrities.get((os, cpu))`
unfoldable pub get_pin : Platform → Integrities → Option Text
get_pin platform [] = none
get_pin platform ((p, hash) ∷ pins) =
    if pair_eq p platform then some hash else get_pin platform pins

-- `integrities.get(platform, "")`
abbrev pub pin_or_empty : Platform → Integrities → Text
pin_or_empty platform pins = elim (get_pin platform pins) [ none ↦ [] | some hash ↦ hash ]

-- The variables of `_elide_impl`.
pub record Settings : Type 0 where
  pub versions : List Text
  pub channel : Text
  pub repo_prefix : Text
  pub url_template : Text
  pub use_tag : Option UseTag
  pub python : Bool
  pub python_url_template : Text

unfoldable pub add_install : Bool → Settings → InstallTag → Settings
add_install true s tag = record {
  versions = s.versions ++ tag.version ∷ [];
  channel = tag.channel;
  repo_prefix = tag.repo_prefix;
  url_template = tag.url_template;
  use_tag = s.use_tag;
  python = s.python || tag.python;
  python_url_template = tag.python_url_template;
}
add_install false s tag = record s {
  versions = s.versions ++ tag.version ∷ [];
  python = s.python || tag.python;
}

unfoldable pub add_installs : Bool → Settings → List InstallTag → Settings
add_installs is_root s [] = s
add_installs is_root s (tag ∷ tags) = add_installs is_root (add_install is_root s tag) tags

unfoldable pub add_uses : Settings → List UseTag → Settings
add_uses s [] = s
add_uses s (tag ∷ tags) = add_uses (record s { use_tag = some tag }) tags

unfoldable pub add_module : Settings → Module → Settings
add_module s m =
    let installed = add_installs m.is_root s m.install in
    if m.is_root then add_uses installed m.use_tags else installed

unfoldable pub collect : Settings → List Module → Settings
collect s [] = s
collect s (m ∷ ms) = collect (add_module s m) ms

abbrev pub initial : Settings
initial = record {
  versions = [];
  channel = default_channel;
  repo_prefix = codes "elide";
  url_template = [];
  use_tag = none;
  python = false;
  python_url_template = [];
}

-- `for (os, cpu) in PLATFORMS` with the settings and the hashes of the version.
unfoldable pub install_downloads :
    Settings → Text → Integrities → Integrities → List Platform → List Repo
install_downloads s version pins overlays [] = []
install_downloads s version pins overlays ((os, cpu) ∷ rest) =
    let more = install_downloads s version pins overlays rest in
    elim (get_pin (os, cpu) pins) [
      | none ↦ more
      | some hash ↦
          elide_download (record {
            name = s.repo_prefix ++ b'_' ∷ platform_key (os, cpu);
            version = version;
            channel = s.channel;
            os = os;
            cpu = cpu;
            integrity = hash;
            url_template = s.url_template;
            python_integrity = pin_or_empty (os, cpu) overlays;
            python_url_template = s.python_url_template;
          })
          ∷ more
    ]

-- The first platform of the version without a Python overlay.
unfoldable pub check_python : Text → Integrities → Integrities → Result ExtensionError (Unit {0})
check_python version overlays [] = ok tt
check_python version overlays ((platform, hash) ∷ pins) =
    let rest = check_python version overlays pins in
    if is_empty (pin_or_empty platform overlays) then err (no_overlay version platform) else rest

abbrev pub or_no_pins : Option Integrities → Integrities
or_no_pins none = []
or_no_pins (some pins) = pins

-- The overlays that a run uses: those of the version, where some tag asks for Python.
abbrev pub overlays_for : Bool → Text → Integrities
overlays_for true version = or_no_pins (lookup version python_versions)
overlays_for false version = []

unfoldable pub wire_version : Settings → Text → Result ExtensionError Wiring
wire_version s version = elim (lookup version elide_versions) [
  | none ↦ err (unknown_version version)
  | some pins ↦
      (if s.python then check_python version (overlays_for s.python version) pins else ok tt)
      >>= λ _. ok (record {
        repos = install_downloads s version pins (overlays_for s.python version) platforms;
        hub = record { version = version; repo_prefix = s.repo_prefix; platforms = [] };
        reproducible = true;
      })
]

unfoldable pub wire_install : Settings → Result ExtensionError Wiring
wire_install s = elim (select_version s.versions) [
  | none ↦ ok (record {
    repos = [];
    hub = record { version = []; repo_prefix = s.repo_prefix; platforms = [] };
    reproducible = true;
  })
  | some version ↦ wire_version s version
]

-- `_elide_impl`
unfoldable pub elide_impl : Host → List Module → Result ExtensionError Wiring
elide_impl host modules =
    let s = collect initial modules in
    elim s.use_tag [ none ↦ wire_install s | some t ↦ wire_use host t ]
