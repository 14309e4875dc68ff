-- ===== src/Policy/Pinned.antt =====
-- tools/repository_policy_test.py: the pattern of a pinned action.
use rules_elide.Prelude.{
  ℕ, ◌≤◌, ◌⊎◌, ◌≡◌, ◌≢◌, ◌↔◌, refl, ap, ◌∙◌, inl, inr, true, ◌&&◌, [], ◌∷◌, ◌++◌, All, length, ◌==◌,
  Bool-cases, arith, subst,
}
use rules_elide.Prelude.Text.{Text}
use rules_elide.Policy.{is_hex, all_hex, is_pinned_behind, is_pinned}

-- A digit or a lowercase letter from a to f.
abbrev pub IsHex : ℕ → Type 0
IsHex c = ((b'0' ≤ c) × (c ≤ b'9')) ⊎ ((b'a' ≤ c) × (c ≤ b'f'))

-- A name without an at sign, which is not empty, an at sign and 40 hexadecimal digits in lowercase.
abbrev pub Pinned : Text → Type 0
Pinned action =
    (name : Text) × (digest : Text) × (action ≡ name ++ b'@' ∷ digest)
    × (name ≢ [])
    × All (λ c. c ≢ b'@') name
    × (length digest ≡ 40)
    × All IsHex digest

is_hex_iff : (c : ℕ) → (is_hex c ≡ true) ↔ IsHex c
is_hex_iff c = ground arith

all_hex_iff : (s : Text) → (all_hex s ≡ true) ↔ All IsHex s
unfolding all_hex
all_hex_iff [] = ground arith
all_hex_iff (c ∷ s) = ground (arith, is_hex_iff c, all_hex_iff s)

-- The same behind a first character, where the name may have ended.
PinnedBehind : Text → Type 0
PinnedBehind s =
    (name : Text) × (digest : Text) × (s ≡ name ++ b'@' ∷ digest)
    × All (λ c. c ≢ b'@') name
    × (length digest ≡ 40)
    × All IsHex digest

is_pinned_behind-PinnedBehind : (s : Text) → is_pinned_behind s ≡ true → PinnedBehind s
unfolding is_pinned_behind PinnedBehind
is_pinned_behind-PinnedBehind [] h = cc
is_pinned_behind-PinnedBehind (c ∷ s) h = elim (Bool-cases (c == b'@')) [
  | inl at ↦
      let rest : (length s == 40) && all_hex s ≡ true = rw at at h in
      (
        [],
        s,
        ground (arith, at),
        tt,
        ground (arith, rest),
        (all_hex_iff s).0 (ground (arith, rest)),
      )
  | inr other ↦
      let (name, digest, e, free, long, hex) = is_pinned_behind-PinnedBehind s (rw other at h) in
      (c ∷ name, digest, ap (λ t. c ∷ t) e, (ground (arith, other), free), long, hex)
]

head_of : (c : ℕ) (s : Text) (d : ℕ) (t : Text) → ◌≡◌ {A = Text} (c ∷ s) (d ∷ t) → c ≡ d
head_of c s d t e = cc

is_pinned_behind_of_parts :
    (s name digest : Text)
    → s ≡ name ++ b'@' ∷ digest
    → All (λ c. c ≢ b'@') name
    → length digest ≡ 40
    → All IsHex digest
    → is_pinned_behind s ≡ true
unfolding is_pinned_behind
is_pinned_behind_of_parts [] [] digest e free long hex = cc
is_pinned_behind_of_parts [] (c ∷ name) digest e free long hex = cc
is_pinned_behind_of_parts (d ∷ s) [] digest e free long hex =
    let digits = (all_hex_iff s).1 (subst (All IsHex) (cc) hex) in
    let size : length s ≡ 40 = ap length (cc) ∙ long in
    ground (arith, digits, size, head_of d s b'@' digest e)
is_pinned_behind_of_parts (d ∷ s) (c ∷ name) digest e (off, free) long hex =
    let rest = is_pinned_behind_of_parts s name digest (cc) free long hex in
    ground (arith, rest, off, head_of d s c (name ++ b'@' ∷ digest) e)

is_pinned-Pinned : (action : Text) → is_pinned action ≡ true → Pinned action
unfolding is_pinned PinnedBehind
is_pinned-Pinned [] h = cc
is_pinned-Pinned (c ∷ s) h =
    let (name, digest, e, free, long, hex) = is_pinned_behind-PinnedBehind s (ground (arith, h)) in
    (c ∷ name, digest, ap (λ t. c ∷ t) e, (λ k. cc), (ground (arith, h), free), long, hex)

is_pinned_of_parts :
    (action name digest : Text)
    → action ≡ name ++ b'@' ∷ digest
    → name ≢ []
    → All (λ c. c ≢ b'@') name
    → length digest ≡ 40
    → All IsHex digest
    → is_pinned action ≡ true
unfolding is_pinned
is_pinned_of_parts action [] digest e some_name h long hex = absurd (some_name refl)
is_pinned_of_parts [] (d ∷ name) digest e some_name h long hex = cc
is_pinned_of_parts (c ∷ s) (d ∷ name) digest e some_name (off, free) long hex = ground (
  arith,
  off,
  head_of c s d (name ++ b'@' ∷ digest) e,
  is_pinned_behind_of_parts s name digest (cc) free long hex,
)

-- The pattern matches the actions that are a name, not empty and without an at sign, an at sign
-- and 40 hexadecimal digits, which are in lowercase, and no other.
pub is_pinned_iff : (action : Text) → (is_pinned action ≡ true) ↔ Pinned action
is_pinned_iff action = (
  is_pinned-Pinned action,
  λ (name, digest, e, some_name, free, long, hex).
      is_pinned_of_parts action name digest e some_name free long hex,
)
