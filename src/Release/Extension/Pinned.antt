-- ===== src/Release/Extension/Pinned.antt =====
-- elide/private/versions.bzl: each pinned release has an archive for each platform.
use rules_elide.Prelude.{
  ◌≡◌, refl, subst, Bool, true, false, ◌&&◌, List, [], ◌∷◌, none, some, All, Bool-cases,
  Option-cases, inl, inr,
}
use rules_elide.Prelude.Text.{pair_eq, Text, text_eq}
use rules_elide.Prelude.Dict.{Dict, lookup}
use rules_elide.Release.Pins.{Platform, Integrities, elide_versions}
use rules_elide.Release.Urls.{platforms}
use rules_elide.Release.Extension.Install.{get_pin}

has_pin : Integrities → Platform → Bool
has_pin pins platform = elim (get_pin platform pins) [ none ↦ false | some hash ↦ true ]

has_pins : Integrities → List Platform → Bool
has_pins pins [] = true
has_pins pins (p ∷ ps) = has_pin pins p && has_pins pins ps

all_complete : Dict Integrities → Bool
all_complete [] = true
all_complete ((version, pins) ∷ d) = has_pins pins platforms && all_complete d

-- The archive of the platform is pinned.
abbrev pub IsPinned : Integrities → Platform → Type 0
IsPinned pins platform = (hash : Text) × (get_pin platform pins ≡ some hash)

table_complete : all_complete elide_versions ≡ true
unfolding all_complete has_pins has_pin elide_versions get_pin pair_eq text_eq
table_complete = refl

has_pins-IsPinned :
    (pins : Integrities) (ps : List Platform) → has_pins pins ps ≡ true → All (IsPinned pins) ps
unfolding has_pins has_pin
has_pins-IsPinned pins [] h = tt
has_pins-IsPinned pins (p ∷ ps) h = elim (Option-cases (get_pin p pins)) [
  | inl e ↦ cc (rw (e, has_pin) at h)
  | inr (hash, e) ↦ ((hash, e), has_pins-IsPinned pins ps (rw (e, has_pin) at h))
]

complete-IsPinned :
    (d : Dict Integrities) (version : Text) {pins : Integrities}
    → all_complete d ≡ true
    → lookup version d ≡ some pins
    → All (IsPinned pins) platforms
unfolding all_complete lookup
complete-IsPinned [] version h e = cc
complete-IsPinned ((v, row) ∷ d) version h e = elim (Bool-cases (has_pins row platforms)) [
  | inr k ↦ cc (rw k at h)
  | inl k ↦ elim (Bool-cases (text_eq v version)) [
    | inl same ↦
        subst (λ pins. All (IsPinned pins) platforms) (cc (rw same at e))
          (has_pins-IsPinned row platforms k)
    | inr other ↦ complete-IsPinned d version (rw k at h) (rw other at e)
  ]
]

pub elide_versions-IsPinned :
    (version : Text) {pins : Integrities}
    → lookup version elide_versions ≡ some pins
    → All (IsPinned pins) platforms
elide_versions-IsPinned version e = complete-IsPinned elide_versions version table_complete e
