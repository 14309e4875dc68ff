-- ===== src/Release/Extension/Runs.antt =====
-- elide/extensions.bzl: what a run of `_elide_impl` declares.
use rules_elide.Prelude.{
  ◌≡◌, ◌≢◌, refl, sym, ap, ◌∙◌, subst, ◌⊎◌, inl, inr, List, [], ◌∷◌, none, some, map, ok,
  ok_injective, Option-cases,
}
use rules_elide.Prelude.Text.{Text}
use rules_elide.Release.Semver.{last, select_version}
use rules_elide.Release.Semver.Select.{select_version-greatest}
use rules_elide.Release.Urls.{platforms}
use rules_elide.Release.Hub.{hub_platforms}
use rules_elide.Release.Extension.Tags.{UseTag, Module, Host, Wiring, platform_key}
use rules_elide.Release.Extension.Use.{wire_use}
use rules_elide.Release.Extension.Install.{Settings, wire_install, elide_impl, collect, initial}
use rules_elide.Release.Extension.Collect.{
  all_versions, root_uses, collect-use_tag, collect-versions,
}
use rules_elide.Release.Extension.Targets.{IsExact}
use rules_elide.Release.Extension.Laws.{wire_use-IsExact, wire_version-IsExact}

-- A use tag of the root module overrides all install tags, and the last one wins.
pub elide_impl-use :
    (host : Host) (modules : List Module) (t : UseTag)
    → last (root_uses modules) ≡ some t
    → elide_impl host modules ≡ wire_use host t
unfolding elide_impl
elide_impl-use host modules t e =
    ap (λ o. elim o [ none ↦ wire_install (collect initial modules) | some u ↦ wire_use host u ])
      (collect-use_tag modules ∙ e)

pub elide_impl-install :
    (host : Host) (modules : List Module)
    → last (root_uses modules) ≡ none
    → elide_impl host modules ≡ wire_install (collect initial modules)
unfolding elide_impl
elide_impl-install host modules e =
    ap (λ o. elim o [ none ↦ wire_install (collect initial modules) | some u ↦ wire_use host u ])
      (collect-use_tag modules ∙ e)

pub last-nil : {A : Type 0} (xs : List A) → last xs ≡ none → xs ≡ []
last-nil [] e = refl
last-nil (x ∷ xs) e = absurd (last-some x xs e)
  where
    last-some : {A : Type 0} (x : A) (xs : List A) → last (x ∷ xs) ≢ none
    last-some x [] e = cc
    last-some x (y ∷ xs) e = last-some y xs e

select_version-nil : (versions : List Text) → select_version versions ≡ none → versions ≡ []
select_version-nil [] e = refl
select_version-nil (v ∷ vs) e = let (u, found, here, above) = select_version-greatest v vs in cc

-- No module has an install tag, and the root has no use tag.
abbrev pub Untagged : List Module → Type 0
Untagged modules = (root_uses modules ≡ []) × (all_versions modules ≡ [])

-- The run of modules without tags: no repository, and yet a hub for each platform.
abbrev pub IsHollow : Wiring → Type 0
IsHollow w = (w.repos ≡ []) × (hub_platforms w.hub.platforms ≡ map platform_key platforms)

wire_install-shape :
    (s : Settings) {w : Wiring}
    → wire_install s ≡ ok w
    → ((s.versions ≡ []) × IsHollow w) ⊎ IsExact w
unfolding wire_install hub_platforms
wire_install-shape s e = elim (Option-cases (select_version s.versions)) [
  | inl h ↦ inl (
    select_version-nil s.versions h,
    subst IsHollow (ok_injective (rw (h, wire_install) at e)) (refl, refl),
  )
  | inr (version, h) ↦ inr (wire_version-IsExact s version (rw (h, wire_install) at e))
]

-- The toolchains of the hub point to exactly the declared repositories, except where no module has
-- an install tag and the root no use tag: then there is no repository, and the hub names all four
-- platforms.
pub elide_impl-IsExact :
    (host : Host) (modules : List Module) (w : Wiring)
    → elide_impl host modules ≡ ok w
    → (Untagged modules × IsHollow w) ⊎ IsExact w
elide_impl-IsExact host modules w e = elim (Option-cases (last (root_uses modules))) [
  | inr (t, h) ↦ inr (wire_use-IsExact host t (sym (elide_impl-use host modules t h) ∙ e))
  | inl h ↦
      elim (wire_install-shape (collect initial modules)
        (sym (elide_impl-install host modules h) ∙ e)) [
          | inr exact ↦ inr exact
          | inl (k, hollow) ↦
              inl ((last-nil (root_uses modules) h, sym (collect-versions modules) ∙ k), hollow)
        ]
]
