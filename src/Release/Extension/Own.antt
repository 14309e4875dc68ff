-- ===== src/Release/Extension/Own.antt =====
-- elide/extensions.bzl: the downloads of a release of one's own, by a use tag.
use mathlib.Core.List.{Mem, mem-cons_self, mem-cons_of_mem}
use rules_elide.Prelude.{
  map, ℕ, ◌==◌, ◌≡◌, ◌≢◌, refl, sym, ap, ◌∙◌, subst, inl, inr, true, false, ◌&&◌, not, List, [],
  ◌∷◌, ◌++◌, some, All, ok, ok_injective, Result-cases, Option-cases, Bool-cases, arith,
}
use rules_elide.Prelude.Text.{Text, codes, strip, text_eq_iff, sorted_set, has_text}
use rules_elide.Prelude.Dict.{Dict, keys, lookup}
use rules_elide.Prelude.Search.{split_first, split_first_parts}
use rules_elide.Release.Urls.{is_empty}
use rules_elide.Release.Extension.Tags.{
  Download, UseTag, Module, Host, Repo, elide_download, Wiring,
}
use rules_elide.Release.Extension.Targets.{repo_name}
use rules_elide.Release.Extension.Overlays.{covers, get_text-check_overlays}
use rules_elide.Release.Extension.Use.{
  split_key, get_text, use_downloads, wire_use, is_empty_dict, check_overlays, texts_eq,
}
use rules_elide.Release.Semver.{last}
use rules_elide.Release.Extension.Install.{elide_impl}
use rules_elide.Release.Extension.Collect.{root_uses}
use rules_elide.Release.Extension.Runs.{elide_impl-use}
use rules_elide.Release.Extension.Laws.{wire_release-ok}

split_first-free :
    (c : ℕ) (s : Text) {before rest : Text}
    → split_first (c ∷ []) s ≡ some (before, rest)
    → All (λ d. d ≢ c) before
unfolding split_first strip
split_first-free c [] e = cc
split_first-free c (d ∷ s) {before} e = elim (Bool-cases (c == d)) [
  | inl here ↦
      let nothing : ◌≡◌ {A = Text} [] before = ground (arith, here, e) in
      subst (All (λ d. d ≢ c)) nothing tt
  | inr there ↦ elim (Option-cases (split_first (c ∷ []) s)) [
    | inl k ↦ absurd (ground (arith, there, k, e))
    | inr ((b, r), k) ↦
        let longer : ◌≡◌ {A = Text} (d ∷ b) before = ground (arith, there, k, e) in
        subst (All (λ d. d ≢ c)) longer (ground (arith, there), split_first-free c s k)
  ]
]

-- A key that splits is the system, an underscore and the CPU.
split_key_parts :
    (key : Text) {os cpu : Text}
    → split_key key ≡ some (os, cpu)
    → (key ≡ os ++ b'_' ∷ cpu) × All (λ c. c ≢ b'_') os
unfolding split_key
split_key_parts key {os} {cpu} e =
    (split_first_parts (codes "_") key os cpu e, split_first-free b'_' key e)

-- The hash of the platform's overlay that the tag gives, or none if the tag has no overlays.
abbrev pub IsOverlayOf : Dict Text → Text → Text → Type 0
IsOverlayOf [] key hash = hash ≡ []
IsOverlayOf (entry ∷ overlays) key hash = Mem (key, hash) (entry ∷ overlays) × (hash ≢ [])

-- The repository is a download that the tag describes: for a platform of the tag, whose key is the
-- system without an underscore, an underscore and the CPU; with the version, the channel and the addresses of the tag,
-- and with the hashes that the tag gives for the platform.
abbrev pub IsOwn : UseTag → Repo → Type 0
IsOwn t r =
    (d : Download) × (r ≡ elide_download d)
    × All (λ c. c ≢ b'_') d.os
    × (d.name ≡ t.repo_prefix ++ b'_' ∷ (d.os ++ b'_' ∷ d.cpu))
    × (d.version ≡ t.version)
    × (d.channel ≡ t.channel)
    × (d.url_template ≡ t.url_template)
    × (d.python_url_template ≡ t.python_url_template)
    × Mem (d.os ++ b'_' ∷ d.cpu, d.integrity) t.integrity
    × IsOverlayOf t.python_integrity (d.os ++ b'_' ∷ d.cpu) d.python_integrity

use_downloads-IsOwn :
    (t : UseTag) (d : Dict Text) {repos : List Repo}
    → ((entry : Text × Text) → Mem entry d → Mem entry t.integrity)
    → ((key : Text)
        → has_text key (keys d) ≡ true
        → IsOverlayOf t.python_integrity key (get_text key t.python_integrity))
    → use_downloads t d ≡ ok repos
    → All (IsOwn t) repos
unfolding use_downloads has_text
use_downloads-IsOwn t [] inside overlays e = subst (All (IsOwn t)) (ok_injective e) tt
use_downloads-IsOwn t ((key, hash) ∷ d) inside overlays e = elim (Option-cases (split_key key)) [
  | inl h ↦ cc (rw (h, use_downloads) at e)
  | inr ((os, cpu), h) ↦ elim (Result-cases (use_downloads t d)) [
    | inr (x, k) ↦ cc (rw (h, k, use_downloads) at e)
    | inl (repos, k) ↦
        let (parts, free) = split_key_parts key h in
        let overlay = overlays key (rw ((text_eq_iff key key).1 refl) refl) in
        subst (All (IsOwn t)) (ok_injective (rw (h, k, use_downloads) at e)) (
          (
            _,
            refl,
            free,
            ap (λ s. t.repo_prefix ++ b'_' ∷ s) parts,
            refl,
            refl,
            refl,
            refl,
            subst (λ s. Mem (s, hash) t.integrity) parts (inside (key, hash) mem-cons_self),
            subst (λ s. IsOverlayOf t.python_integrity s (get_text key t.python_integrity)) parts
                overlay,
          ),
          use_downloads-IsOwn t d (λ entry m. inside entry (mem-cons_of_mem (key, hash) m))
              (λ other m. overlays other (ground (arith, m))) k,
        )
  ]
]

overlay_or_none :
    (overlays hashes : Dict Text)
    → (not (is_empty_dict overlays)
        && not (texts_eq (sorted_set (keys overlays)) (sorted_set (keys hashes))))
      ≡ false
    → check_overlays overlays ≡ ok tt
    → (key : Text) → has_text key (keys hashes) ≡ true
    → IsOverlayOf overlays key (get_text key overlays)
unfolding lookup
overlay_or_none [] hashes covered checked key there = refl
overlay_or_none (entry ∷ d) hashes covered checked key there =
    elim (Bool-cases (texts_eq (sorted_set (keys (entry ∷ d))) (sorted_set (keys hashes)))) [
      | inl h ↦
          get_text-check_overlays (entry ∷ d) key checked (covers (entry ∷ d) hashes h key ∙ there)
      | inr h ↦ cc (rw h at covered)
    ]

-- The repositories of the platforms of the tag, in its order.
abbrev pub own_names : Text → List Text → List Text
own_names repo_prefix = map λ key. repo_prefix ++ b'_' ∷ key

use_downloads-own_names :
    (t : UseTag) (d : Dict Text) {repos : List Repo}
    → use_downloads t d ≡ ok repos
    → map repo_name repos ≡ own_names t.repo_prefix (keys d)
unfolding use_downloads
use_downloads-own_names t [] e = subst (λ rs. map repo_name rs ≡ []) (ok_injective e) refl
use_downloads-own_names t ((key, hash) ∷ d) e = elim (Option-cases (split_key key)) [
  | inl h ↦ cc (rw (h, use_downloads) at e)
  | inr ((os, cpu), h) ↦ elim (Result-cases (use_downloads t d)) [
    | inr (x, k) ↦ cc (rw (h, k, use_downloads) at e)
    | inl (repos, k) ↦
        subst (λ rs. map repo_name rs ≡ own_names t.repo_prefix (key ∷ keys d))
          (ok_injective (rw (h, k, use_downloads) at e))
          (ap (λ ns. (t.repo_prefix ++ b'_' ∷ key) ∷ ns) (use_downloads-own_names t d k))
  ]
]

wire_use-IsOwn :
    (host : Host) (t : UseTag) (w : Wiring)
    → is_empty t.local_path ≡ true
    → wire_use host t ≡ ok w
    → (map repo_name w.repos ≡ own_names t.repo_prefix (keys t.integrity)) × All (IsOwn t) w.repos
unfolding wire_use
wire_use-IsOwn host t w remote e =
    let (h, repos, k, covered, checked, same) = wire_release-ok t (rw remote at e) in
    subst
      (λ (w : Wiring).
        (map repo_name w.repos ≡ own_names t.repo_prefix (keys t.integrity))
        × All (IsOwn t) w.repos)
      (sym same)
      (
        use_downloads-own_names t t.integrity k,
        use_downloads-IsOwn t t.integrity (λ entry m. m)
            (overlay_or_none t.python_integrity t.integrity covered checked) k,
      )

-- The last use tag of the root module overrides all install tags. Where it has no local path and
-- the run succeeds, there is a repository for each platform of the tag, in order and named after
-- it. Each is a download with the version, the channel and the addresses of the tag, the hash that
-- the tag gives for the platform, and the hash that it gives for the platform's overlay exactly if
-- it has overlays.
pub elide_impl-IsOwn :
    (host : Host) (modules : List Module) (t : UseTag) (w : Wiring)
    → last (root_uses modules) ≡ some t
    → is_empty t.local_path ≡ true
    → elide_impl host modules ≡ ok w
    → (map repo_name w.repos ≡ own_names t.repo_prefix (keys t.integrity)) × All (IsOwn t) w.repos
elide_impl-IsOwn host modules t w used remote e =
    wire_use-IsOwn host t w remote (sym (elide_impl-use host modules t used) ∙ e)
