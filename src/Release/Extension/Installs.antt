-- ===== src/Release/Extension/Installs.antt =====
-- elide/extensions.bzl: the downloads of a run without a use tag.
use mathlib.Core.List.{Mem}
use rules_elide.Prelude.{
  ◌≡◌, ◌≢◌, refl, sym, ap, ◌∙◌, subst, inl, inr, false, List, [], ◌∷◌, ◌++◌, none, some, All,
  All-mem, ok, ok_injective, Option-cases,
}
use rules_elide.Prelude.Text.{Text}
use rules_elide.Prelude.Dict.{lookup}
use rules_elide.Release.Semver.{last, select_version}
use rules_elide.Release.Semver.Select.{NotBelow, select_version-greatest}
use rules_elide.Release.Pins.{Platform, Integrities, elide_versions}
use rules_elide.Release.Urls.{platforms}
use rules_elide.Release.Extension.Tags.{
  Download, Module, Host, Repo, elide_download, Wiring, platform_key,
}
use rules_elide.Release.Extension.Install.{
  Settings, get_pin, pin_or_empty, install_downloads, overlays_for, wire_version, wire_install,
  elide_impl, collect, initial,
}
use rules_elide.Release.Extension.Collect.{
  all_versions, asks_python, root_uses, collect-versions, collect-python,
}
use rules_elide.Release.Extension.Runs.{elide_impl-install}
use rules_elide.Release.Extension.Overlaid.{HasOverlay, install-overlay}
use rules_elide.Release.Extension.Laws.{wire_version-ok}

-- The repository is a download of the version, with the hash that is pinned for its platform.
abbrev pub IsRelease : Text → Repo → Type 0
IsRelease version r =
    (d : Download) × (r ≡ elide_download d)
    × (d.version ≡ version)
    × (pins : Integrities) × (lookup version elide_versions ≡ some pins)
    × (get_pin (d.os, d.cpu) pins ≡ some d.integrity)

-- A property of each download of a pinned platform.
pub install_downloads-All :
    (P : Repo → Type 0) (s : Settings) (version : Text) (pins overlays : Integrities)
    (ps : List Platform)
    → ((os cpu hash : Text)
        → get_pin (os, cpu) pins ≡ some hash
        → P (
            elide_download (record {
              name = s.repo_prefix ++ b'_' ∷ platform_key (os, cpu);
              version = version;
              channel = s.channel;
              os = os;
              cpu = cpu;
              integrity = hash;
              url_template = s.url_template;
              python_integrity = pin_or_empty (os, cpu) overlays;
              python_url_template = s.python_url_template;
            })))
    → All P (install_downloads s version pins overlays ps)
unfolding install_downloads
install_downloads-All P s version pins overlays [] h = tt
install_downloads-All P s version pins overlays ((os, cpu) ∷ ps) h =
    let rest = install_downloads-All P s version pins overlays ps h in
    elim (Option-cases (get_pin (os, cpu) pins)) [
      | inl k ↦ rw (k, install_downloads) rest
      | inr (hash, k) ↦ rw (k, install_downloads) (h os cpu hash k, rest)
    ]

install-IsRelease :
    (s : Settings) (version : Text) {w : Wiring}
    → wire_version s version ≡ ok w
    → (w.hub.version ≡ version) × All (IsRelease version) w.repos
install-IsRelease s version e =
    let (pins, k, h, same) = wire_version-ok s version e in
    subst (λ (w : Wiring). (w.hub.version ≡ version) × All (IsRelease version) w.repos) (sym same)
      (
        refl,
        install_downloads-All (IsRelease version) s version pins (overlays_for s.python version)
            platforms λ os cpu hash l. (_, refl, refl, pins, k, l),
      )

install-HasOverlay :
    (s : Settings) (version : Text) {w : Wiring}
    → wire_version s version ≡ ok w
    → All (HasOverlay s.python w.hub.version) w.repos
install-HasOverlay s version e =
    let (pins, k, h, same) = wire_version-ok s version e in
    subst (λ (w : Wiring). All (HasOverlay s.python w.hub.version) w.repos) (sym same)
      (install_downloads-All (HasOverlay s.python version) s version pins
        (overlays_for s.python version) platforms
        λ os cpu hash l. install-overlay s.python version pins (os, cpu) h l _ refl refl refl)

-- The version that the settings select.
pub wire_install-version :
    (s : Settings) {version : Text}
    → select_version s.versions ≡ some version
    → wire_install s ≡ wire_version s version
unfolding wire_install
wire_install-version s e = rw (e, wire_install) refl

-- Where the root module has no use tag and some module an install tag, a run that succeeds selects
-- one of the install tags' versions that no other of them ranks above, labels the hub with it, and
-- each repository is a download of it, with the hash that is pinned for its platform.
pub elide_impl-version :
    (host : Host) (modules : List Module) (version : Text) (versions : List Text) (w : Wiring)
    → root_uses modules ≡ []
    → all_versions modules ≡ version ∷ versions
    → elide_impl host modules ≡ ok w
    → Mem w.hub.version (version ∷ versions)
      × All (NotBelow w.hub.version) (version ∷ versions)
      × All (IsRelease w.hub.version) w.repos
elide_impl-version host modules version versions w no_use all e =
    let (v, found, here, above) = select_version-greatest version versions in
    let s = collect initial modules in
    let selected = ap select_version (collect-versions modules ∙ all) ∙ found in
    let run =
      sym (wire_install-version s selected)
      ∙ sym (elide_impl-install host modules (ap last no_use))
      ∙ e in
    let (label, downloads) = install-IsRelease s v run in
    subst
      (λ u.
        Mem u (version ∷ versions)
        × All (NotBelow u) (version ∷ versions)
        × All (IsRelease u) w.repos)
      (sym label) (here, above, downloads)

-- Where the root module has no use tag, a run that succeeds declares downloads alone. If an install
-- tag of some module asks for Python, each of them is of the hub's version, with the hash that is
-- pinned for the Python overlay of that version and the platform; if none does, each is without an
-- overlay.
pub elide_impl-HasOverlay :
    (host : Host) (modules : List Module) (w : Wiring)
    → root_uses modules ≡ []
    → elide_impl host modules ≡ ok w
    → All (HasOverlay (asks_python modules) w.hub.version) w.repos
unfolding wire_install
elide_impl-HasOverlay host modules w no_use e =
    let s = collect initial modules in
    let run = sym (elide_impl-install host modules (ap last no_use)) ∙ e in
    subst (λ python. All (HasOverlay python w.hub.version) w.repos) (collect-python modules)
      (elim (Option-cases (select_version s.versions)) [
        | inl h ↦
            subst (λ (w : Wiring). All (HasOverlay s.python w.hub.version) w.repos)
              (ok_injective (rw (h, wire_install) at run)) tt
        | inr (v, h) ↦ install-HasOverlay s v (rw (h, wire_install) at run)
      ])

wire_version-succeeds :
    (s : Settings) (version : Text) {pins : Integrities}
    → s.python ≡ false
    → lookup version elide_versions ≡ some pins
    → (w : Wiring) × (wire_version s version ≡ ok w)
unfolding wire_version
wire_version-succeeds s version plain e = rw (e, wire_version, plain) (_, refl)

pub elide_impl-wired :
    (host : Host) (modules : List Module) (version : Text) (versions : List Text)
    → root_uses modules ≡ []
    → all_versions modules ≡ version ∷ versions
    → asks_python modules ≡ false
    → All (λ v. lookup v elide_versions ≢ none) (version ∷ versions)
    → (v : Text) × (w : Wiring) × (elide_impl host modules ≡ ok w)
      × (wire_version (collect initial modules) v ≡ ok w)
elide_impl-wired host modules version versions no_use all plain pinned =
    let (v, found, here, above) = select_version-greatest version versions in
    let s = collect initial modules in
    let selected = ap select_version (collect-versions modules ∙ all) ∙ found in
    elim (Option-cases (lookup v elide_versions)) [
      | inl h ↦ absurd (All-mem (λ u. hlevel) v (version ∷ versions) pinned here h)
      | inr (pins, h) ↦
          let (w, run) = wire_version-succeeds s v (collect-python modules ∙ plain) h in
          (
            v,
            w,
            elide_impl-install host modules (ap last no_use)
                ∙ wire_install-version s selected
                ∙ run,
            run,
          )
    ]
