-- ===== src/Release/Extension/Laws.antt =====
-- elide/extensions.bzl: the hub against the repositories of a run.
use rules_elide.Prelude.{
  ◌≡◌, sym, ap, ◌∙◌, inl, inr, Bool, true, false, ◌||◌, ◌&&◌, not, List, [], ◌∷◌, ◌++◌, some, ok,
  ok_injective, subst, Result-cases, Option-cases, Bool-cases, if◌then◌else◌,
}
use rules_elide.Prelude.Text.{Text, codes, sorted_set}
use rules_elide.Prelude.Dict.{keys, lookup}
use rules_elide.Release.Pins.{Integrities, elide_versions}
use rules_elide.Release.Urls.{platforms, is_empty, or_text}
use rules_elide.Release.Hub.{hub_platforms}
use rules_elide.Release.Extension.Tags.{UseTag, Host, Repo, Wiring, platform_key}
use rules_elide.Release.Extension.Use.{
  use_downloads, wire_local, wire_release, wire_use, host_platform, is_empty_dict, check_overlays,
  texts_eq,
}
use rules_elide.Release.Extension.Install.{
  Settings, install_downloads, overlays_for, check_python, wire_version,
}
use rules_elide.Release.Extension.Pinned.{elide_versions-IsPinned}
use rules_elide.Release.Extension.Targets.{
  targets_of, IsExact, use_downloads-targets, install_downloads-targets, platforms-KeyIsOs,
  hub_platforms-keys, host_platform-KeyIsOs,
}

wire_local-IsExact : (host : Host) (t : UseTag) {w : Wiring} → wire_local host t ≡ ok w → IsExact w
unfolding wire_local hub_platforms
wire_local-IsExact host t e =
    elim (Bool-cases
      (not (is_empty_dict t.python_integrity) || not (is_empty t.python_url_template))) [
        | inl h ↦ cc (rw h at e)
        | inr h ↦ elim (Option-cases (host_platform host)) [
          | inl k ↦ cc (rw (h, k) at e)
          | inr ((os, cpu), k) ↦ subst IsExact (ok_injective (rw (h, k) at e)) (
              ap (λ o. (t.repo_prefix ++ b'_' ∷ platform_key (os, cpu), o) ∷ [])
                (host_platform-KeyIsOs host (os, cpu) k))
        ]
      ]

-- What an install that is wired up consists of.
pub wire_version-ok :
    (s : Settings) (version : Text) {w : Wiring}
    → wire_version s version ≡ ok w
    → (pins : Integrities) × (lookup version elide_versions ≡ some pins)
      × ((if s.python then check_python version (overlays_for s.python version) pins else ok tt)
          ≡ ok tt)
      × (w ≡ record {
        repos = install_downloads s version pins (overlays_for s.python version) platforms;
        hub = record { version = version; repo_prefix = s.repo_prefix; platforms = [] };
        reproducible = true;
      })
unfolding wire_version
wire_version-ok s version {w = w} e = elim (Option-cases (lookup version elide_versions)) [
  | inl k ↦ cc (rw (k, wire_version) at e)
  | inr (pins, k) ↦
      elim (Result-cases
        (if s.python then check_python version (overlays_for s.python version) pins else ok tt)) [
          | inr (x, h) ↦ cc (rw (k, wire_version, h) at e)
          | inl (u, h) ↦ (pins, k, h, sym (ok_injective (rw (k, wire_version, h) at e)))
        ]
]

pub wire_version-IsExact :
    (s : Settings) (version : Text) {w : Wiring} → wire_version s version ≡ ok w → IsExact w
unfolding hub_platforms
wire_version-IsExact s version e =
    let (pins, k, h, same) = wire_version-ok s version e in
    subst IsExact (sym same) (
      install_downloads-targets s version pins (overlays_for s.python version) platforms
        (elide_versions-IsPinned version k) platforms-KeyIsOs)

not_or : (a b : Bool) → (a || b) ≡ false → b ≡ false
not_or true b e = cc
not_or false b e = e

-- What a release that is wired up has passed.
pub wire_release-ok :
    (t : UseTag) {w : Wiring}
    → wire_release t ≡ ok w
    → (is_empty_dict t.integrity ≡ false)
      × (repos : List Repo) × (use_downloads t t.integrity ≡ ok repos)
      × ((not (is_empty_dict t.python_integrity)
            && not
                (texts_eq (sorted_set (keys t.python_integrity)) (sorted_set (keys t.integrity))))
          ≡ false)
      × (check_overlays t.python_integrity ≡ ok tt)
      × (w ≡ record {
        repos = repos;
        hub = record {
          version = or_text t.version (codes "custom");
          repo_prefix = t.repo_prefix;
          platforms = keys t.integrity;
        };
        reproducible = true;
      })
unfolding wire_release
wire_release-ok t {w = w} e =
    let overlay =
      if is_empty_dict t.python_integrity
      then not (is_empty t.python_url_template)
      else is_empty t.python_url_template in
    let other =
      not (is_empty_dict t.python_integrity)
      && not (texts_eq (sorted_set (keys t.python_integrity)) (sorted_set (keys t.integrity))) in
    elim (Bool-cases (is_empty t.url_template || is_empty_dict t.integrity)) [
      | inl h ↦ cc (rw (h, wire_release) at e)
      | inr h ↦ elim (Bool-cases overlay) [
        | inl i ↦ cc (rw (h, i, wire_release) at e)
        | inr i ↦ elim (Bool-cases other) [
          | inl j ↦ cc (rw (h, i, j, wire_release) at e)
          | inr j ↦ elim (Result-cases (check_overlays t.python_integrity)) [
            | inr (x, k) ↦ cc (rw (h, i, j, k, wire_release) at e)
            | inl (u, k) ↦ elim (Result-cases (use_downloads t t.integrity)) [
              | inr (x, l) ↦ cc (rw (h, i, j, k, l, wire_release) at e)
              | inl (repos, l) ↦ (
                not_or (is_empty t.url_template) (is_empty_dict t.integrity) h,
                repos,
                l,
                j,
                k,
                sym (ok_injective (rw (h, i, j, k, l, wire_release) at e)),
              )
            ]
          ]
        ]
      ]
    ]

wire_release-IsExact : (t : UseTag) {w : Wiring} → wire_release t ≡ ok w → IsExact w
wire_release-IsExact t e =
    let (h, repos, k, covered, checked, same) = wire_release-ok t e in
    subst IsExact (sym same) (
      ap (targets_of t.repo_prefix) (hub_platforms-keys t.integrity h)
      ∙ use_downloads-targets t t.integrity k)

pub wire_use-IsExact : (host : Host) (t : UseTag) {w : Wiring} → wire_use host t ≡ ok w → IsExact w
unfolding wire_use
wire_use-IsExact host t e = elim (Bool-cases (is_empty t.local_path)) [
  | inl h ↦ wire_release-IsExact t (rw h at e)
  | inr h ↦ wire_local-IsExact host t (rw h at e)
]
