-- ===== src/Release/Extension/Targets.antt =====
-- elide/extensions.bzl: the repositories that a hub points to, and those that are declared.
use rules_elide.Prelude.{
  ◌≡◌, refl, ap, ◌∙◌, inl, inr, false, ◌||◌, List, [], ◌∷◌, ◌++◌, Option, none, some, map, All, ok,
  ok_injective, some_injective, subst, Result-cases, Option-cases, Bool-cases,
}
use rules_elide.Prelude.Text.{Text, codes, strip}
use rules_elide.Prelude.Search.{split_first}
use rules_elide.Prelude.Dict.{Dict, keys}
use rules_elide.Release.Pins.{Platform, Integrities}
use rules_elide.Release.Urls.{platforms}
use rules_elide.Release.Hub.{hub_platforms}
use rules_elide.Release.Extension.Tags.{
  UseTag, Host, Repo, elide_download, elide_local, Hub, Wiring, platform_key,
}
use rules_elide.Release.Extension.Use.{
  split_key, use_downloads, host_platform, host_os, host_cpu, lower, contains, is_empty_dict,
}
use rules_elide.Release.Extension.Install.{Settings, install_downloads}
use rules_elide.Release.Extension.Pinned.{IsPinned}

abbrev pub repo_name : Repo → Text
repo_name (elide_download d) = d.name
repo_name (elide_local name path os) = name

abbrev pub repo_os : Repo → Text
repo_os (elide_download d) = d.os
repo_os (elide_local name path os) = os

-- The operating system in a platform's key.
abbrev pub os_of : Text → Option Text
os_of key = elim (split_key key) [ none ↦ none | some (os, cpu) ↦ some os ]

-- The repositories of a prefix that toolchains of the platforms point to, with their systems.
abbrev pub targets_of : Text → List Text → List (Text × Option Text)
targets_of repo_prefix = map λ p. (repo_prefix ++ b'_' ∷ p, os_of p)

abbrev pub hub_targets : Hub → List (Text × Option Text)
hub_targets hub = targets_of hub.repo_prefix (hub_platforms hub.platforms)

abbrev pub repo_targets : List Repo → List (Text × Option Text)
repo_targets = map λ r. (repo_name r, some (repo_os r))

-- The hub's toolchains point to the declared repositories, in order, each to one of its system.
abbrev pub IsExact : Wiring → Type 0
IsExact w = hub_targets w.hub ≡ repo_targets w.repos

pub os_of-split :
    (key : Text) {os cpu : Text} → split_key key ≡ some (os, cpu) → os_of key ≡ some os
os_of-split key e = ap (λ o. elim o [ none ↦ none | some (os, cpu) ↦ some os ]) e

pub use_downloads-targets :
    (t : UseTag) (d : Dict Text) {repos : List Repo}
    → use_downloads t d ≡ ok repos
    → targets_of t.repo_prefix (keys d) ≡ repo_targets repos
unfolding use_downloads
use_downloads-targets t [] e = cc
use_downloads-targets t ((key, hash) ∷ d) e = elim (Option-cases (split_key key)) [
  | inl h ↦ cc (rw (h, use_downloads) at e)
  | inr ((os, cpu), h) ↦ elim (Result-cases (use_downloads t d)) [
    | inr (x, k) ↦ cc (rw (h, k, use_downloads) at e)
    | inl (repos, k) ↦
        ap (λ o. (t.repo_prefix ++ b'_' ∷ key, o) ∷ targets_of t.repo_prefix (keys d))
          (os_of-split key h)
        ∙ ap (◌∷◌ (t.repo_prefix ++ b'_' ∷ key, some os)) (use_downloads-targets t d k)
        ∙ ap repo_targets (ok_injective (rw (h, k, use_downloads) at e))
  ]
]

-- The key of a platform begins with its system.
abbrev pub KeyIsOs : Platform → Type 0
KeyIsOs p = os_of (platform_key p) ≡ some p.0

pub install_downloads-targets :
    (s : Settings) (version : Text) (pins overlays : Integrities) (ps : List Platform)
    → All (IsPinned pins) ps
    → All KeyIsOs ps
    → targets_of s.repo_prefix (map platform_key ps)
      ≡ repo_targets (install_downloads s version pins overlays ps)
unfolding install_downloads
install_downloads-targets s version pins overlays [] h k = refl
install_downloads-targets s version pins overlays ((os, cpu) ∷ ps) ((hash, e), h) (l, k) =
    rw (e, install_downloads, l)
      (ap (◌∷◌ (s.repo_prefix ++ b'_' ∷ platform_key (os, cpu), some os))
        (install_downloads-targets s version pins overlays ps h k))

pub platforms-KeyIsOs : All KeyIsOs platforms
unfolding split_key split_first strip
platforms-KeyIsOs = (refl, (refl, (refl, (refl, tt))))

-- A hub that names platforms.
pub hub_platforms-keys :
    {V : Type 0} (d : Dict V) → is_empty_dict d ≡ false → hub_platforms (keys d) ≡ keys d
unfolding hub_platforms
hub_platforms-keys [] h = cc
hub_platforms-keys (entry ∷ d) h = refl

host_os-KeyIsOs :
    (name : Text) {os : Text} (cpu : Text) → host_os name ≡ some os → KeyIsOs (os, cpu)
unfolding host_os split_key split_first strip
host_os-KeyIsOs name cpu e = elim (Bool-cases (contains name (codes "linux"))) [
  | inl h ↦ known (rw (h, host_os) at e) refl
  | inr h ↦
      elim (Bool-cases (
        contains name (codes "mac")
        || contains name (codes "darwin")
        || contains name (codes "osx"))) [
          | inl i ↦ known (rw (h, i, host_os) at e) refl
          | inr i ↦ elim (Bool-cases (contains name (codes "windows"))) [
            | inl j ↦ known (rw (h, i, j, host_os) at e) refl
            | inr j ↦ cc (rw (h, i, j, host_os) at e)
          ]
        ]
]
  where
    known :
        {os os' : Text}
        → ◌≡◌ {A = Option Text} (some os) (some os')
        → KeyIsOs (os, cpu)
        → KeyIsOs (os', cpu)
    known e = subst (λ os. KeyIsOs (os, cpu)) (some_injective e)

pub host_platform-KeyIsOs : (host : Host) (p : Platform) → host_platform host ≡ some p → KeyIsOs p
unfolding host_platform
host_platform-KeyIsOs host p e = elim (Option-cases (host_os (lower host.name))) [
  | inl h ↦ cc (rw (h, host_platform) at e)
  | inr (os, h) ↦ elim (Option-cases (host_cpu (lower host.arch))) [
    | inl k ↦ cc (rw (h, k, host_platform) at e)
    | inr (cpu, k) ↦
        subst KeyIsOs (some_injective (rw (h, k, host_platform) at e))
          (host_os-KeyIsOs (lower host.name) cpu h)
  ]
]
