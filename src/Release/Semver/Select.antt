-- ===== src/Release/Semver/Select.antt =====
-- elide/private/versions.bzl: `select_version` picks the greatest version, whatever their order.
use mathlib.Core.List.{Mem, Perm, not-mem-nil, mem-cons_self, mem-cons_of_mem}
use mathlib.Core.List.Perm
use rules_elide.Prelude.{
  ◌≡◌, ◌↔◌, refl, sym, ap, ◌∙◌, subst, true, false, List, [], ◌∷◌, some, arith, Bool-cases, inl,
  inr, All, All-mem,
}
use rules_elide.Prelude.Text.{Text}
use rules_elide.Release.Semver.{
  Rank, rank_lt, parse_semver, insert_version, sort_versions, last, select_version,
}
use rules_elide.Release.Semver.Order.{
  rank_lt_irrefl, rank_lt_trans, rank_lt_connected, parse_semver_injective,
}

-- `v` ranks no lower than `w`.
abbrev pub NotBelow : Text → Text → Type 0
NotBelow v w = rank_lt (parse_semver v) (parse_semver w) ≡ false

NotBelow-trans : (u v w : Text) → NotBelow u v → NotBelow v w → NotBelow u w
NotBelow-trans u v w h k = ground (
  arith,
  rank_lt_trans (parse_semver u) (parse_semver w) (parse_semver v),
  rank_lt_trans (parse_semver v) (parse_semver u) (parse_semver w),
  rank_lt_connected (parse_semver u) (parse_semver v) h,
)

rank_lt_asym : (a b : Rank) → rank_lt a b ≡ true → rank_lt b a ≡ false
rank_lt_asym a b h = ground (arith, rank_lt_trans a b a h, rank_lt_irrefl a)

-- Neighbours ascend.
Ascends : List Text → Type 0
Ascends [] = Unit
Ascends (v ∷ []) = Unit
Ascends (v ∷ w ∷ vs) = NotBelow w v × Ascends (w ∷ vs)

insert-Ascends : (v : Text) (ws : List Text) → Ascends ws → Ascends (insert_version v ws)
unfolding insert_version Ascends
insert-Ascends v [] h = tt
insert-Ascends v (w ∷ []) h = elim (Bool-cases (rank_lt (parse_semver w) (parse_semver v))) [
  | inl k ↦ rw k (rank_lt_asym (parse_semver w) (parse_semver v) k, tt)
  | inr k ↦ rw k (k, tt)
]
insert-Ascends v (w ∷ u ∷ ws) (first, rest) =
    elim (Bool-cases (rank_lt (parse_semver w) (parse_semver v))) [
      | inr k ↦ rw k (k, (first, rest))
      | inl k ↦
          let behind = insert-Ascends v (u ∷ ws) rest in
          elim (Bool-cases (rank_lt (parse_semver u) (parse_semver v))) [
            | inl l ↦ rw (k, l) (first, rw l at behind)
            | inr l ↦ rw (k, l) (rank_lt_asym (parse_semver w) (parse_semver v) k, rw l at behind)
          ]
    ]

sort-Ascends : (vs : List Text) → Ascends (sort_versions vs)
unfolding sort_versions Ascends
sort-Ascends [] = tt
sort-Ascends (v ∷ vs) = insert-Ascends v (sort_versions vs) (sort-Ascends vs)

insert-perm : (v : Text) (ws : List Text) → Perm (insert_version v ws) (v ∷ ws)
unfolding insert_version
insert-perm v [] = Perm.rfl
insert-perm v (w ∷ ws) = elim (Bool-cases (rank_lt (parse_semver w) (parse_semver v))) [
  | inl h ↦ rw h (Perm.trans (Perm.cons w (insert-perm v ws)) (Perm.swap v w ws))
  | inr h ↦ rw h Perm.rfl
]

sort-perm : (vs : List Text) → Perm (sort_versions vs) vs
unfolding sort_versions
sort-perm [] = Perm.rfl
sort-perm (v ∷ vs) = Perm.trans (insert-perm v (sort_versions vs)) (Perm.cons v (sort-perm vs))

last-greatest : (vs : List Text) (v : Text) → Ascends vs → last vs ≡ some v → All (NotBelow v) vs
unfolding Ascends
last-greatest [] v h e = tt
last-greatest (w ∷ []) v h e =
    (subst (λ u. NotBelow u w) (cc) (rank_lt_irrefl (parse_semver w)), tt)
last-greatest (w ∷ u ∷ vs) v (first, rest) e =
    let behind = last-greatest (u ∷ vs) v rest e in (NotBelow-trans v u w behind.0 first, behind)

mem-last : (vs : List Text) (v : Text) → last vs ≡ some v → Mem v vs
mem-last [] v e = cc
mem-last (w ∷ []) v e = subst (λ u. Mem u (w ∷ [])) (cc) mem-cons_self
mem-last (w ∷ u ∷ vs) v e = mem-cons_of_mem w (mem-last (u ∷ vs) v e)

last-some : (v : Text) (vs : List Text) → (u : Text) × (last (v ∷ vs) ≡ some u)
last-some v [] = (v, refl)
last-some v (w ∷ vs) = last-some w vs

NotBelow-mem : (v w : Text) (vs : List Text) → All (NotBelow v) vs → Mem w vs → NotBelow v w
NotBelow-mem v = All-mem λ w. hlevel

All-NotBelow :
    (v : Text) (vs : List Text) → ((w : Text) → Mem w vs → NotBelow v w) → All (NotBelow v) vs
All-NotBelow v [] h = tt
All-NotBelow v (w ∷ vs) h = (h w mem-cons_self, All-NotBelow v vs λ u m. h u (mem-cons_of_mem w m))

insert-some : (v : Text) (ws : List Text) → (u : Text) × (last (insert_version v ws) ≡ some u)
unfolding insert_version
insert-some v [] = (v, refl)
insert-some v (w ∷ ws) = elim (Bool-cases (rank_lt (parse_semver w) (parse_semver v))) [
  | inl h ↦ rw h (last-some w (insert_version v ws))
  | inr h ↦ rw h (last-some v (w ∷ ws))
]

-- Of one version or more, `select_version` returns one of them that no other ranks above.
pub select_version-greatest :
    (version : Text) (versions : List Text)
    → (v : Text) × (select_version (version ∷ versions) ≡ some v)
      × Mem v (version ∷ versions)
      × All (NotBelow v) (version ∷ versions)
unfolding select_version sort_versions
select_version-greatest version versions =
    let (v, e) = insert-some version (sort_versions versions) in
    let sorted = sort-perm (version ∷ versions) in
    let greatest =
      last-greatest (sort_versions (version ∷ versions)) v (sort-Ascends (version ∷ versions)) e in
    (
      v,
      e,
      (Perm.mem_iff sorted).0 (mem-last (sort_versions (version ∷ versions)) v e),
      All-NotBelow v (version ∷ versions) λ w m.
          NotBelow-mem v w (sort_versions (version ∷ versions)) greatest
            ((Perm.mem_iff sorted).1 m),
    )

-- The selected version is the same for the same versions, in whatever order and however often the
-- modules name them.
select_version_of_mem :
    (versions others : List Text)
    → ((v : Text) → Mem v versions ↔ Mem v others)
    → select_version versions ≡ select_version others
select_version_of_mem [] [] same = refl
select_version_of_mem [] (w ∷ ws) same = absurd (not-mem-nil ((same w).1 mem-cons_self))
select_version_of_mem (v ∷ vs) [] same = absurd (not-mem-nil ((same v).0 mem-cons_self))
select_version_of_mem (v ∷ vs) (w ∷ ws) same =
    let (x, found, here, above) = select_version-greatest v vs in
    let (y, found', here', above') = select_version-greatest w ws in
    let low = NotBelow-mem x y (v ∷ vs) above ((same y).1 here') in
    let high = NotBelow-mem y x (w ∷ ws) above' ((same x).0 here) in
    let equal =
      parse_semver_injective x y (rank_lt_connected (parse_semver x) (parse_semver y) low high) in
    found ∙ ap some equal ∙ sym found'
