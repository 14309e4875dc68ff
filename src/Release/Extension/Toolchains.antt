-- ===== src/Release/Extension/Toolchains.antt =====
-- elide/extensions.bzl, elide/private/hub.bzl, elide/private/download.bzl: the binaries that the hub's
-- toolchains name against those that the repositories have.
use rules_elide.Prelude.{
  ◌≡◌, refl, sym, ap, ◌∙◌, ◌⊎◌, inl, inr, List, [], ◌∷◌, ◌++◌, Option, none, some, map,
  some_injective, Option-cases, ok,
}
use rules_elide.Prelude.Text.{Text, codes}
use rules_elide.Prelude.Dict.{lookup}
use rules_elide.Release.Urls.{os_constraints, cpu_constraints}
use rules_elide.Release.Hub.{Toolchain, hub_platforms, toolchain_of, toolchains_of, hub_toolchains}
use rules_elide.Release.Download.{binary_of}
use rules_elide.Release.Extension.Tags.{Module, Host, Repo, Hub, Wiring}
use rules_elide.Release.Extension.Use.{split_key}
use rules_elide.Release.Extension.Install.{elide_impl}
use rules_elide.Release.Extension.Targets.{
  os_of-split, repo_name, repo_os, os_of, targets_of, repo_targets,
}
use rules_elide.Release.Extension.Runs.{Untagged, IsHollow, elide_impl-IsExact}

-- The repository and the file in it that a toolchain names as its binary.
abbrev pub toolchain_binary : Toolchain → Text × Text
toolchain_binary t = (t.repo, codes "bin/elide" ++ t.bin_ext)

-- A repository and the binary that its BUILD file exports.
abbrev pub repo_binary : Repo → Text × Text
repo_binary r = (repo_name r, binary_of [] (repo_os r))

with_binary : Text × Option Text → Text × Text
with_binary (name, none) = (name, [])
with_binary (name, some os) = (name, binary_of [] os)

toolchain_of-binary :
    (hub : Hub) (p : Text) {t : Toolchain}
    → toolchain_of hub p ≡ some t
    → toolchain_binary t ≡ with_binary (hub.repo_prefix ++ b'_' ∷ p, os_of p)
unfolding toolchain_of with_binary binary_of
toolchain_of-binary hub p e = elim (Option-cases (split_key p)) [
  | inl h ↦ cc (rw (h, toolchain_of) at e)
  | inr ((os, cpu), h) ↦ elim (Option-cases (lookup os os_constraints)) [
    | inl k ↦ cc (rw (h, k, toolchain_of) at e)
    | inr (x, k) ↦ elim (Option-cases (lookup cpu cpu_constraints)) [
      | inl l ↦ cc (rw (h, k, l, toolchain_of) at e)
      | inr (y, l) ↦
          sym (ap toolchain_binary (some_injective (rw (h, k, l, toolchain_of) at e)))
          ∙ ap (λ o. with_binary (hub.repo_prefix ++ b'_' ∷ p, o)) (sym (os_of-split p h))
    ]
  ]
]

toolchains_of-binary :
    (hub : Hub) (ps : List Text) {ts : List Toolchain}
    → toolchains_of hub ps ≡ some ts
    → map toolchain_binary ts ≡ map with_binary (targets_of hub.repo_prefix ps)
unfolding toolchains_of
toolchains_of-binary hub [] e = sym (ap (map toolchain_binary) (some_injective e))
toolchains_of-binary hub (p ∷ ps) e = elim (Option-cases (toolchain_of hub p)) [
  | inl h ↦ cc (rw (h, toolchains_of) at e)
  | inr (t, h) ↦ elim (Option-cases (toolchains_of hub ps)) [
    | inl k ↦ cc (rw (h, k, toolchains_of) at e)
    | inr (ts, k) ↦
        sym (ap (map toolchain_binary) (some_injective (rw (h, k, toolchains_of) at e)))
        ∙ ap (λ b. b ∷ map toolchain_binary ts) (toolchain_of-binary hub p h)
        ∙ ap (◌∷◌ (with_binary (hub.repo_prefix ++ b'_' ∷ p, os_of p)))
            (toolchains_of-binary hub ps k)
  ]
]

repos-binary : (rs : List Repo) → map with_binary (repo_targets rs) ≡ map repo_binary rs
unfolding with_binary
repos-binary [] = refl
repos-binary (r ∷ rs) = ap (◌∷◌ (repo_binary r)) (repos-binary rs)

-- Where a run succeeds and its hub can be built, the toolchains of the hub name the declared
-- repositories, all of them and in order, each with the binary that the repository's BUILD file
-- exports; except where no module has an install tag and the root no use tag: then there is no
-- repository, and the hub names all four platforms.
pub elide_impl-toolchains :
    (host : Host) (modules : List Module) (w : Wiring) (ts : List Toolchain)
    → elide_impl host modules ≡ ok w
    → hub_toolchains w.hub ≡ some ts
    → (Untagged modules × IsHollow w) ⊎ (map toolchain_binary ts ≡ map repo_binary w.repos)
unfolding hub_toolchains
elide_impl-toolchains host modules w ts e built = elim (elide_impl-IsExact host modules w e) [
  | inl hollow ↦ inl hollow
  | inr exact ↦ inr (
      toolchains_of-binary w.hub (hub_platforms w.hub.platforms) built
      ∙ ap (map with_binary) exact
      ∙ repos-binary w.repos)
]
