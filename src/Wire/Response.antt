-- ===== src/Wire/Response.antt =====
-- benchmarks/pgo/gen_workrequest.py: `check_responses`.
pub mod Laws
pub mod Refusals
use rules_elide.Prelude.{
  ℕ, zero, suc, ◌+◌, ◌-◌, Bool, true, false, ◌||◌, List, [], ◌∷◌, ◌++◌, Option, none, some, Result,
  ok, err, ◌>>=◌, length, ltb, ◌==◌, if◌then◌else◌,
}
use rules_elide.Wire.Varint.{
  WireError, truncated_response, int_not_decodable, compile_failed, wrong_count, out_of_fuel,
  read_varint,
}
use rules_elide.Wire.Fields.{FieldValue, number, bytes, slice, fields}

-- `dict(pairs).get(n)`: the last of the pairs counts.
get_last : ℕ → List (ℕ × FieldValue) → Option FieldValue
get_last n [] = none
get_last n ((m, value) ∷ rest) = elim (get_last n rest) [
  | some later ↦ some later
  | none ↦ if m == n then some value else none
]

-- `response.get(n, 0)` as a condition.
is_set : Option FieldValue → Bool
is_set none = false
is_set (some (number zero)) = false
is_set (some (number (suc n))) = true
is_set (some (bytes [])) = false
is_set (some (bytes (b ∷ bs))) = true

-- The message of the error: `response.get(2, b"").decode(errors="replace")`, before the decoding.
failure : Option FieldValue → WireError
failure none = compile_failed []
failure (some (number n)) = int_not_decodable
failure (some (bytes output)) = compile_failed output

-- The test on one response.
unfoldable pub check_response : List ℕ → Result WireError (Unit {0})
unfolding get_last is_set failure
check_response message = do
  response ← fields message
  if is_set (get_last 1 response) || is_set (get_last 4 response)
      then err (failure (get_last 2 response))
      else ok tt

-- The part of a round behind the length: the slice is checked, and the loop goes on at its end.
framed : List ℕ → ℕ → ℕ → Result WireError ℕ
framed stream start end =
    if ltb (length stream) end
    then err truncated_response
    else (check_response (slice stream start end) >>= λ _. ok end)

unfoldable pub read_response : List ℕ → ℕ → Result WireError ℕ
unfolding framed
read_response stream offset = do
  (size, start) ← read_varint stream offset
  framed stream start (start + size)

-- `while offset < len(data)`, from the count so far.
pub responses_loop : ℕ → List ℕ → ℕ → ℕ → Result WireError ℕ
responses_loop zero stream offset count =
    if ltb offset (length stream) then err out_of_fuel else ok count
responses_loop (suc fuel) stream offset count =
    let more = (do
      next ← read_response stream offset
      responses_loop fuel stream next (count + 1)) in
    if ltb offset (length stream) then more else ok count

-- Each round takes a byte at least.
unfoldable pub check_responses : List ℕ → ℕ → Result WireError (Unit {0})
unfolding responses_loop
check_responses stream expected = do
  count ← responses_loop (length stream) stream 0 0
  if count == expected then ok tt else err (wrong_count expected count)
