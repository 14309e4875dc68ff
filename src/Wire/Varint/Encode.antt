-- ===== src/Wire/Varint/Encode.antt =====
-- What `varint` writes, in plain arithmetic.
use mathlib.Core.WellFounded.{Acc}
use rules_elide.Prelude.{
  ℕ, zero, suc, ◌+◌, ◌/◌, ◌%◌, ◌^◌, ◌≤◌, ◌<◌, ◌≡◌, bit_and, bit_or, List, [], ◌∷◌, ◌++◌,
  append_assoc, arith, length, All, ltb, if◌then◌else◌,
}
use rules_elide.Prelude.Bits.{low_seven, set_top_bit}
use rules_elide.Prelude.Order.{lt_wf}
use rules_elide.Wire.Varint.{varint_loop, varint}

-- The groups of seven bits of `n`, lowest first, for `n` below 128 ^ (k + 1).
unfoldable pub groups : ℕ → ℕ → List ℕ
groups zero n = n ∷ []
groups (suc k) n =
    let rest = groups k (n / 128) in if ltb n 128 then n ∷ [] else (n % 128 + 128) ∷ rest

marked_group : (n : ℕ) → bit_or (bit_and n 0x7f) 0x80 ≡ n % 128 + 128
marked_group n = rw low_seven (set_top_bit (n % 128) (omega arith))

varint_loop-groups :
    (k : ℕ) (out : List ℕ) (n : ℕ) (w : Acc ◌<◌ n)
    → n < 128 ^ suc k
    → varint_loop out n w ≡ out ++ groups k n
unfolding varint_loop groups
varint_loop-groups zero out n (Acc.intro _ smaller) h = ground (arith, low_seven n)
varint_loop-groups (suc k) out n (Acc.intro _ smaller) h = grind (
  arith,
  low_seven n,
  marked_group n,
  λ (w : Acc ◌<◌ (n / 128)).
      varint_loop-groups k (out ++ (n % 128 + 128) ∷ []) (n / 128) w (omega arith),
  append_assoc out ((n % 128 + 128) ∷ []) (groups k (n / 128)),
)

pub varint-groups : (k n : ℕ) → n < 128 ^ suc k → varint n ≡ groups k n
unfolding varint
varint-groups k n h = varint_loop-groups k [] n (lt_wf.apply n) h

pub length-groups : (k n : ℕ) → (1 ≤ length (groups k n)) × (length (groups k n) ≤ k + 1)
unfolding groups
length-groups zero n = omega arith
length-groups (suc k) n = ground (arith, length-groups k (n / 128))

groups_bytes : (k n : ℕ) → n < 128 ^ suc k → All (λ b. b < 256) (groups k n)
unfolding groups
groups_bytes zero n h = omega arith
groups_bytes (suc k) n h = ground (arith, groups_bytes k (n / 128) (omega arith))
