-- ===== src/Wire/Varint.antt =====
-- benchmarks/pgo/gen_workrequest.py: `_varint` and `_read_varint`, and the errors of the module.
pub mod Encode
pub mod Decode
use Prim.Native.Nat.{ℕ}
use mathlib.Core.WellFounded.{Acc}
use rules_elide.Prelude.{
  zero, suc, ◌+◌, ◌*◌, ◌/◌, ◌^◌, ◌<◌, bit_and, bit_or, List, [], ◌∷◌, ◌++◌, none, some, dite,
  dec_lt, arith, Result, ok, err, get_elem?, ltb, if◌then◌else◌,
}
use rules_elide.Prelude.Order.{lt_wf}

-- What the module raises. `int_not_decodable` is the AttributeError of `.decode` on a number, and
-- `out_of_fuel` is no exception of the program: it ends a loop of the model.
pub data WireError : Type 0 where
  truncated_varint oversized_varint truncated_field unsupported_wire_type : WireError
  truncated_response int_not_decodable out_of_fuel : WireError
  compile_failed : List ℕ → WireError
  wrong_count : ℕ → ℕ → WireError
  worker_closed invalid_length : WireError
  missing_file usage : WireError

shift_shrinks : (n : ℕ) → 0 < n / 128 → n / 128 < n
shift_shrinks n h = omega arith

-- The loop on what is left of `n`; `out` is the bytearray.
varint_loop : List ℕ → (n : ℕ) → Acc ◌<◌ n → List ℕ
varint_loop out n (Acc.intro _ smaller) =
    let b = bit_and n 0x7f in
    dite (dec_lt 0 (n / 128))
      (λ more. varint_loop (out ++ bit_or b 0x80 ∷ []) (n / 128) (smaller _ (shift_shrinks n more)))
      (λ _. out ++ b ∷ [])

unfoldable pub varint : ℕ → List ℕ
unfolding varint_loop shift_shrinks lt_wf dec_lt
varint n = varint_loop [] n (lt_wf.apply n)

-- The rounds that `range(0, 70, 7)` has left, at its current `shift`.
unfoldable pub read_loop : ℕ → ℕ → ℕ → List ℕ → ℕ → Result WireError (ℕ × ℕ)
read_loop zero shift value bytes offset = err oversized_varint
read_loop (suc rounds) shift value bytes offset = elim (get_elem? bytes offset) [
  | none ↦ err truncated_varint
  | some b ↦
      let value' = bit_or value (bit_and b 127 * 2 ^ shift) in
      let more = read_loop rounds (shift + 7) value' bytes (offset + 1) in
      if ltb b 128 then ok (value', offset + 1) else more
]

-- The number at `offset`, and the offset behind it.
unfoldable pub read_varint : List ℕ → ℕ → Result WireError (ℕ × ℕ)
unfolding read_loop
read_varint bytes offset = read_loop 10 0 0 bytes offset
