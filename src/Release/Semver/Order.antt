-- ===== src/Release/Semver/Order.antt =====
-- The order of the comparable tuples is strict and linear, and a tuple tells its version.
use rules_elide.Prelude.{
  ℕ, ◌≡◌, ◌≢◌, refl, sym, ap, ◌∙◌, true, false, List, [], ◌∷◌, arith, Bool-cases, Option-cases, inl,
  inr,
}
use rules_elide.Prelude.Text.{Text, codes, text_eq, text_eq_iff}
use rules_elide.Prelude.TextOrder.{text_lt_irrefl, text_lt_trans, text_lt_connected}
use rules_elide.Release.Semver.{
  Rank, unparsed, parsed, rank_lt, rank_of, parse_semver, numbers, split, core_of, before_first,
  is_number,
}

pub rank_lt_irrefl : (a : Rank) → rank_lt a a ≡ false
unfolding rank_lt
rank_lt_irrefl (unparsed v) = text_lt_irrefl v
rank_lt_irrefl (parsed a1 a2 a3 a4 v) = ground (arith, text_lt_irrefl v)

pub rank_lt_trans : (a b c : Rank) → rank_lt a b ≡ true → rank_lt b c ≡ true → rank_lt a c ≡ true
unfolding rank_lt
rank_lt_trans (unparsed v) (unparsed w) (unparsed u) h k = text_lt_trans v w u h k
rank_lt_trans (unparsed v) b (parsed c1 c2 c3 c4 u) h k = refl
rank_lt_trans (unparsed v) (parsed b1 b2 b3 b4 w) (unparsed u) h k = cc
rank_lt_trans (parsed a1 a2 a3 a4 v) (unparsed w) c h k = cc
rank_lt_trans (parsed a1 a2 a3 a4 v) (parsed b1 b2 b3 b4 w) (unparsed u) h k = cc
rank_lt_trans (parsed a1 a2 a3 a4 v) (parsed b1 b2 b3 b4 w) (parsed c1 c2 c3 c4 u) h k =
    ground (arith, text_lt_trans v w u)

pub rank_lt_connected : (a b : Rank) → rank_lt a b ≡ false → rank_lt b a ≡ false → a ≡ b
unfolding rank_lt
rank_lt_connected (unparsed v) (unparsed w) h k = ap unparsed (text_lt_connected v w h k)
rank_lt_connected (unparsed v) (parsed b1 b2 b3 b4 w) h k = cc
rank_lt_connected (parsed a1 a2 a3 a4 v) (unparsed w) h k = cc
rank_lt_connected (parsed a1 a2 a3 a4 v) (parsed b1 b2 b3 b4 w) h k =
    ground (arith, text_lt_connected v w)

-- The last component.
tag : Rank → Text
tag (unparsed v) = v
tag (parsed a b c d v) = v

tag-rank_of :
    (ns : List ℕ) (stable : ℕ) (version : Text) → tag (rank_of ns stable version) ≡ version
unfolding rank_of tag
tag-rank_of [] stable version = refl
tag-rank_of (a ∷ []) stable version = refl
tag-rank_of (a ∷ b ∷ []) stable version = refl
tag-rank_of (a ∷ b ∷ c ∷ more) stable version = refl

tag-parse_semver :
    (version : Text)
    → text_eq version (codes "latest") ≡ false
    → tag (parse_semver version) ≡ version
unfolding parse_semver tag
tag-parse_semver version other = elim (Option-cases (numbers (split b'.' (core_of version)))) [
  | inl h ↦ rw (other, h) refl
  | inr (ns, h) ↦ rw (other, h) (tag-rank_of ns _ version)
]

parse_semver-latest :
    (version : Text)
    → text_eq version (codes "latest") ≡ true
    → parse_semver version ≡ parsed 999999999 0 0 1 []
unfolding parse_semver
parse_semver-latest version h = rw h refl

-- No other version has the tuple of `latest`: it would be the empty one, which is no version.
latest_alone :
    (v w : Text)
    → text_eq v (codes "latest") ≡ true
    → text_eq w (codes "latest") ≡ false
    → parse_semver v ≢ parse_semver w
latest_alone v w latest other e =
    let same = ap tag (sym (parse_semver-latest v latest) ∙ e) ∙ tag-parse_semver w other in
    no_empty (parse_semver-latest v latest) (e ∙ ap parse_semver (sym same ∙ tag_empty))
  where
    tag_empty : tag (parsed 999999999 0 0 1 []) ≡ []
    tag_empty = unfold tag in refl

    no_empty : {a : Rank} → a ≡ parsed 999999999 0 0 1 [] → a ≢ parse_semver []
    no_empty h k = unfold parse_semver numbers split before_first is_number text_eq in cc (k, h)

pub parse_semver_injective : (v w : Text) → parse_semver v ≡ parse_semver w → v ≡ w
parse_semver_injective v w e = elim (Bool-cases (text_eq v (codes "latest"))) [
  | inl h ↦ elim (Bool-cases (text_eq w (codes "latest"))) [
    | inl k ↦ (text_eq_iff v (codes "latest")).0 h ∙ sym ((text_eq_iff w (codes "latest")).0 k)
    | inr k ↦ absurd (latest_alone v w h k e)
  ]
  | inr h ↦ elim (Bool-cases (text_eq w (codes "latest"))) [
    | inl k ↦ absurd (latest_alone w v k h (sym e))
    | inr k ↦ sym (tag-parse_semver v h) ∙ ap tag e ∙ tag-parse_semver w k
  ]
]
