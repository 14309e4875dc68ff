-- ===== src/Release/Extension/Fetches.antt =====
-- elide/extensions.bzl, elide/private/download.bzl: what a default build downloads.
use mathlib.Core.List.{Mem}
use rules_elide.Prelude.{
  ◌≡◌, ◌≢◌, Option, refl, sym, ap, ◌∙◌, subst, Bool, true, false, List, [], ◌∷◌, ◌++◌, none, some,
  map, All, ok, if◌then◌else◌,
}
use rules_elide.Prelude.Text.{Text, codes, strip}
use rules_elide.Prelude.Dict.{lookup}
use rules_elide.Release.Pins.{Integrities, elide_versions}
use rules_elide.Release.Urls.{platforms, is_empty}
use rules_elide.Release.Download.{download_steps}
use rules_elide.Release.Extension.Tags.{
  Download, InstallTag, UseTag, Module, Host, Repo, elide_download, Wiring, platform_key,
}
use rules_elide.Release.Extension.Install.{
  Settings, add_install, add_installs, add_uses, add_module, collect, initial, elide_impl,
  overlays_for, pin_or_empty, get_pin,
}
use rules_elide.Prelude.Search.{split_first}
use rules_elide.Release.Extension.Use.{split_key}
use rules_elide.Release.Extension.Collect.{all_versions, asks_python, root_uses, collect-python}
use rules_elide.Release.Extension.Targets.{
  targets_of, repo_targets, install_downloads-targets, platforms-KeyIsOs,
}
use rules_elide.Release.Extension.Made.{IsMade, built_in-IsMade}
use rules_elide.Release.Extension.Laws.{wire_version-ok}
use rules_elide.Release.Extension.Pinned.{elide_versions-IsPinned}
use rules_elide.Release.Extension.Installs.{install_downloads-All, elide_impl-wired}
use rules_elide.Release.Extension.Overlaid.{get_pin-Mem}

-- No install tag of the module has a URL template.
abbrev pub IsBuiltIn : Module → Type 0
IsBuiltIn m = All (λ (t : InstallTag). t.url_template ≡ []) m.install

add_installs-url_template :
    (root : Bool) (s : Settings) (ts : List InstallTag)
    → s.url_template ≡ []
    → All (λ (t : InstallTag). t.url_template ≡ []) ts
    → (add_installs root s ts).url_template ≡ []
unfolding add_installs add_install
add_installs-url_template root s [] h hs = h
add_installs-url_template true s (t ∷ ts) h (k, ks) =
    add_installs-url_template true (add_install true s t) ts k ks
add_installs-url_template false s (t ∷ ts) h (k, ks) =
    add_installs-url_template false (add_install false s t) ts h ks

add_uses-url_template :
    (s : Settings) (ts : List UseTag) → (add_uses s ts).url_template ≡ s.url_template
unfolding add_uses
add_uses-url_template s [] = refl
add_uses-url_template s (t ∷ ts) = add_uses-url_template (record s { use_tag = some t }) ts

add_module-url_template :
    (s : Settings) (m : Module)
    → s.url_template ≡ []
    → IsBuiltIn m
    → (add_module s m).url_template ≡ []
unfolding add_module
add_module-url_template s m h hs =
    by_root m.is_root (add_installs-url_template m.is_root s m.install h hs)
  where
    by_root :
        (root : Bool)
        → (add_installs m.is_root s m.install).url_template ≡ []
        → (if root
            then add_uses (add_installs m.is_root s m.install) m.use_tags
            else add_installs m.is_root s m.install).url_template
          ≡ []
    by_root true k = add_uses-url_template (add_installs m.is_root s m.install) m.use_tags ∙ k
    by_root false k = k

collect-url_template :
    (s : Settings) (ms : List Module)
    → s.url_template ≡ []
    → All IsBuiltIn ms
    → (collect s ms).url_template ≡ []
unfolding collect
collect-url_template s [] h hs = h
collect-url_template s (m ∷ ms) h (k, ks) =
    collect-url_template (add_module s m) ms (add_module-url_template s m h k) ks

-- The repository is the download of the version for a platform, named after it, with the hash that
-- is pinned for both, and it can be made.
abbrev pub IsFetched : Text → Text → Repo → Type 0
IsFetched repo_prefix version r =
    (d : Download) × (r ≡ elide_download d)
    × (d.name ≡ repo_prefix ++ b'_' ∷ (d.os ++ b'_' ∷ d.cpu))
    × (d.version ≡ version)
    × ((pins : Integrities) × (lookup version elide_versions ≡ some pins)
        × Mem ((d.os, d.cpu), d.integrity) pins)
    × IsMade d (download_steps [] [] d)

-- The names of the repositories of the four platforms, and their systems.
abbrev pub platform_repos : Text → List (Text × Option Text)
platform_repos repo_prefix =
    (repo_prefix ++ codes "_linux_amd64", some (codes "linux"))
    ∷ (repo_prefix ++ codes "_linux_arm64", some (codes "linux"))
    ∷ (repo_prefix ++ codes "_macos_arm64", some (codes "macos"))
    ∷ (repo_prefix ++ codes "_windows_amd64", some (codes "windows"))
    ∷ []

targets_of-platform_repos :
    (repo_prefix : Text)
    → targets_of repo_prefix (map platform_key platforms) ≡ platform_repos repo_prefix
unfolding split_key split_first strip
targets_of-platform_repos repo_prefix = refl

-- Where the root module has no use tag, no install tag asks for Python or has a URL template and
-- the version of each install tag is pinned, the run succeeds, and its repositories are those of
-- the four platforms, each of its system. Each of them is of the hub's version and is made, without
-- an error, of the archive that the release has on GitHub for the platform, extracted if it has the
-- hash that is pinned for both, of its twelve executables outside Windows, and of a BUILD file for
-- the binary.
pub elide_impl-succeeds :
    (host : Host) (modules : List Module) (version : Text) (versions : List Text)
    → root_uses modules ≡ []
    → all_versions modules ≡ version ∷ versions
    → asks_python modules ≡ false
    → All IsBuiltIn modules
    → All (λ v. lookup v elide_versions ≢ none) (version ∷ versions)
    → (w : Wiring) × (elide_impl host modules ≡ ok w)
      × (repo_targets w.repos ≡ platform_repos w.hub.repo_prefix)
      × All (IsFetched w.hub.repo_prefix w.hub.version) w.repos
unfolding get_pin
elide_impl-succeeds host modules version versions no_use all plain built_in pinned =
    let (v, w, run, wired) =
      elide_impl-wired host modules version versions no_use all plain pinned in
    let s = collect initial modules in
    let (pins, k, checked, same) = wire_version-ok s v wired in
    let no_overlay = collect-python modules ∙ plain in
    let no_template = collect-url_template initial modules refl built_in in
    let targets =
      sym (
        install_downloads-targets s v pins (overlays_for s.python v) platforms
          (elide_versions-IsPinned v k) platforms-KeyIsOs)
      ∙ targets_of-platform_repos s.repo_prefix in
    let fetched =
      install_downloads-All (IsFetched s.repo_prefix v) s v pins (overlays_for s.python v) platforms
        λ os cpu hash l. (
          _,
          refl,
          refl,
          refl,
          (pins, k, get_pin-Mem (os, cpu) pins l),
          built_in-IsMade _ no_template
              (ap (λ b. is_empty (pin_or_empty (os, cpu) (overlays_for b v))) no_overlay),
        ) in
    let both =
      subst
        (λ (w : Wiring).
          (repo_targets w.repos ≡ platform_repos w.hub.repo_prefix)
          × All (IsFetched w.hub.repo_prefix w.hub.version) w.repos)
        (sym same) (targets, fetched) in
    (w, run, both.0, both.1)
