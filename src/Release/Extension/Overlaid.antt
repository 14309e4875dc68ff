-- ===== src/Release/Extension/Overlaid.antt =====
-- elide/extensions.bzl: the Python overlays of a run without a use tag.
use mathlib.Core.List.{Mem, mem-cons_self, mem-cons_of_mem}
use rules_elide.Prelude.{
  ◌≡◌, ◌≢◌, refl, sym, ap, ◌∙◌, subst, inl, inr, Bool, true, false, [], ◌∷◌, Option, none, some, ok,
  Option-cases, Bool-cases, if◌then◌else◌,
}
use rules_elide.Prelude.Text.{Text, pair_eq, pair_eq_iff}
use rules_elide.Prelude.Dict.{lookup}
use rules_elide.Release.Pins.{Platform, Integrities, python_versions}
use rules_elide.Release.Urls.{is_empty}
use rules_elide.Release.Extension.Tags.{Download, Repo, elide_download}
use rules_elide.Release.Extension.Install.{
  get_pin, pin_or_empty, or_no_pins, overlays_for, check_python,
}

-- The download has the hash that is pinned for the Python overlay of the version and its platform.
abbrev pub IsOverlaid : Text → Download → Type 0
IsOverlaid version d =
    (d.version ≡ version)
    × (d.python_integrity ≢ [])
    × (overlays : Integrities) × (lookup version python_versions ≡ some overlays)
    × Mem ((d.os, d.cpu), d.python_integrity) overlays

-- The repository is a download, overlaid if Python is asked for and without an overlay if not.
abbrev pub HasOverlay : Bool → Text → Repo → Type 0
HasOverlay true version r = (d : Download) × (r ≡ elide_download d) × IsOverlaid version d
HasOverlay false version r = (d : Download) × (r ≡ elide_download d) × (d.python_integrity ≡ [])

pub get_pin-Mem :
    (p : Platform) (pins : Integrities) {hash : Text}
    → get_pin p pins ≡ some hash
    → Mem (p, hash) pins
unfolding get_pin
get_pin-Mem p [] e = cc
get_pin-Mem p ((q, first) ∷ pins) {hash} e = elim (Bool-cases (pair_eq q p)) [
  | inl l ↦
      subst (λ (pair : Platform × Text). Mem pair ((q, first) ∷ pins))
        (both ((pair_eq_iff q p).0 l) (rw l at e)) mem-cons_self
  | inr l ↦ mem-cons_of_mem (q, first) (get_pin-Mem p pins (rw l at e))
]
  where
    both : q ≡ p → some first ≡ some hash → ◌≡◌ {A = Platform × Text} (q, first) (p, hash)
    both a b = cc

check_python-overlay :
    (version : Text) (overlays pins : Integrities) (p : Platform) {hash : Text}
    → check_python version overlays pins ≡ ok tt
    → get_pin p pins ≡ some hash
    → is_empty (pin_or_empty p overlays) ≡ false
unfolding check_python get_pin
check_python-overlay version overlays [] p h e = cc
check_python-overlay version overlays ((q, hash) ∷ pins) p h e =
    elim (Bool-cases (is_empty (pin_or_empty q overlays))) [
      | inl k ↦ cc (rw k at h)
      | inr k ↦ elim (Bool-cases (pair_eq q p)) [
        | inl l ↦ rw⁻¹ ((pair_eq_iff q p).0 l) k
        | inr l ↦ check_python-overlay version overlays pins p (rw k at h) (rw l at e)
      ]
    ]

some_pin :
    (p : Platform) (overlays : Integrities)
    → is_empty (pin_or_empty p overlays) ≡ false
    → Mem (p, pin_or_empty p overlays) overlays
some_pin p overlays h = elim (Option-cases (get_pin p overlays)) [
  | inl k ↦ cc (subst (λ o. is_empty (elim o [ none ↦ [] | some hash ↦ hash ]) ≡ false) k h)
  | inr (hash, k) ↦
      subst (λ o. Mem (p, elim o [ none ↦ [] | some hash ↦ hash ]) overlays) (sym k)
        (get_pin-Mem p overlays k)
]

some_overlays :
    (row : Option Integrities) (p : Platform)
    → is_empty (pin_or_empty p (or_no_pins row)) ≡ false
    → (overlays : Integrities) × (row ≡ some overlays)
      × Mem (p, pin_or_empty p (or_no_pins row)) overlays
unfolding get_pin
some_overlays none p h = cc
some_overlays (some overlays) p h = (overlays, refl, some_pin p overlays h)

pub install-overlay :
    (python : Bool) (version : Text) (pins : Integrities) (p : Platform) {hash : Text}
    → (if python then check_python version (overlays_for python version) pins else ok tt) ≡ ok tt
    → get_pin p pins ≡ some hash
    → (d : Download) → d.version ≡ version
    → (d.os, d.cpu) ≡ p
    → d.python_integrity ≡ pin_or_empty p (overlays_for python version)
    → HasOverlay python version (elide_download d)
unfolding get_pin
install-overlay true version pins p h e d same place hash =
    let there = check_python-overlay version (overlays_for true version) pins p h e in
    let (overlays, found, inside) = some_overlays (lookup version python_versions) p there in
    (
      d,
      refl,
      (
        same,
        (λ none_there. cc (there, ap is_empty (sym hash ∙ none_there))),
        overlays,
        found,
        subst (λ q. Mem (q, d.python_integrity) overlays) (sym place)
            (subst (λ v. Mem (p, v) overlays) (sym hash) inside),
      ),
    )
install-overlay false version pins p h e d same place hash = (d, refl, hash)
