-- ===== src/Partial/Stream.antt =====
-- benchmarks/java_partial_compile.py: `compile_request`. The worker is a process: what it writes on
-- a request is a parameter, and its pipe is the state. An error ends the script, so no pipe comes
-- back with one.
pub mod Laws
use rules_elide.Prelude.{
  ℕ, zero, suc, ◌+◌, ◌*◌, ◌^◌, bit_and, bit_or, String, List, [], ◌∷◌, ◌++◌, Result, ok, err, ◌>>=◌,
  take, drop, ltb, if◌then◌else◌,
}
use rules_elide.Wire.Varint.{WireError, worker_closed, invalid_length}
use rules_elide.Wire.Request.{Host, request}
use rules_elide.Wire.Response.{check_responses}

pub record Pipe : Type 0 where
  pub sent : List ℕ
  pub output : List ℕ

-- The rounds left of `for shift in range(0, 70, 7)`: the prefix, the size and the unread output.
pub read_size : ℕ → ℕ → List ℕ → ℕ → List ℕ → Result WireError (List ℕ × ℕ × List ℕ)
read_size zero shift prefix size output = err invalid_length
read_size (suc rounds) shift prefix size [] = err worker_closed
read_size (suc rounds) shift prefix size (b ∷ output) =
    let prefix' = prefix ++ b ∷ [] in
    let size' = bit_or size (bit_and b 127 * 2 ^ shift) in
    let more = read_size rounds (shift + 7) prefix' size' output in
    if ltb b 128 then ok (prefix', size', output) else more

unfoldable pub read_response_from : Pipe → Result WireError Pipe
unfolding read_size
read_response_from pipe = do
  (prefix, size, output) ← read_size 10 0 [] 0 pipe.output
  _ ← check_responses (prefix ++ take size output) 1
  ok (record pipe { output = drop size output })

module _ (host : Host) (respond : List ℕ → List ℕ) where
  unfoldable pub compile_request : List String → List String → Pipe → Result WireError Pipe
  compile_request arguments inputs pipe = do
    message ← request host arguments inputs
    read_response_from
        (record { sent = pipe.sent ++ message; output = pipe.output ++ respond message })
