-- ===== src/Partial/Stream/Laws.antt =====
-- The reader of the pipe against `read_varint` and `check_response`.
use rules_elide.Prelude.{
  ℕ, zero, suc, ◌+◌, ◌*◌, ◌^◌, ◌<◌, ◌≡◌, refl, ◌∙◌, sym, bit_and, bit_or, String, List, [], ◌∷◌,
  ◌++◌, append_assoc, append-nil, arith, Result, ok, err, ◌>>=◌, Result-cases, inl, inr, length,
  take, drop, get_elem?-append, length-append, take-append, drop-append, ltb, Bool-cases,
}
use rules_elide.Wire.Varint.{
  WireError, truncated_varint, oversized_varint, worker_closed, invalid_length, varint, read_loop,
  read_varint,
}
use rules_elide.Wire.Varint.Decode.{read_varint-varint, read_loop_code, read_loop-end}
use native.Mathlib.Nat.{zero-add}
use rules_elide.Wire.Request.{Host, request}
use rules_elide.Wire.Response.{check_response, check_responses}
use rules_elide.Wire.Response.Laws.{frame, join_frames, check_responses-frames}
use rules_elide.Wire.Response.Refusals.{check_responses-failing}
use rules_elide.Partial.Stream.{read_size, read_response_from, compile_request}

-- The result of `read_varint`, as the reader of a pipe gives it.
abbrev pub from_pipe : List ℕ → Result WireError (ℕ × ℕ) → Result WireError (List ℕ × ℕ × List ℕ)
from_pipe bytes (ok (size, next)) = ok (take next bytes, size, drop next bytes)
from_pipe bytes (err truncated_varint) = err worker_closed
from_pipe bytes (err oversized_varint) = err invalid_length
from_pipe bytes (err e) = err e

length_last : (front : List ℕ) (b : ℕ) → length (front ++ b ∷ []) ≡ length front + 1
length_last front b = omega (arith, length-append front (b ∷ []))

take_front :
    (front rest : List ℕ) (b : ℕ) → take (length front + 1) (front ++ b ∷ rest) ≡ front ++ b ∷ []
take_front front rest b =
    rw (← append_assoc front (b ∷ []) rest, ← length_last front b)
      (take-append (front ++ b ∷ []) rest)

drop_front : (front rest : List ℕ) (b : ℕ) → drop (length front + 1) (front ++ b ∷ rest) ≡ rest
drop_front front rest b =
    rw (← append_assoc front (b ∷ []) rest, ← length_last front b)
      (drop-append (front ++ b ∷ []) rest)

read_size-read_loop :
    (rounds shift size : ℕ) (prefix output : List ℕ)
    → read_size rounds shift prefix size output
      ≡ from_pipe
          (prefix ++ output)
          (read_loop rounds shift size (prefix ++ output) (length prefix))
unfolding read_size
read_size-read_loop zero shift size prefix output = unfold read_loop in refl
read_size-read_loop (suc rounds) shift size prefix [] =
    rw (read_loop-end rounds shift size (length prefix) (prefix ++ []) (get_elem?-append prefix []))
read_size-read_loop (suc rounds) shift size prefix (b ∷ output) =
    let size' = bit_or size (bit_and b 127 * 2 ^ shift) in
    rw
      (read_loop_code rounds shift size b (length prefix) (prefix ++ b ∷ output)
        (get_elem?-append prefix (b ∷ output)))
      (elim (Bool-cases (ltb b 128)) [
        | inl last ↦ rw (last, take_front, drop_front)
        | inr more ↦
            rw (more, ← append_assoc prefix (b ∷ []) output, ← length_last prefix b)
              (read_size-read_loop rounds (shift + 7) size' (prefix ++ b ∷ []) output)
      ])

-- Reading the length byte by byte from the pipe gives what `read_varint` gives on the whole output:
-- the bytes it takes, their number and the rest. A short output means that the worker closed it.
pub read_size-read_varint :
    (output : List ℕ) → read_size 10 0 [] 0 output ≡ from_pipe output (read_varint output 0)
unfolding read_varint
read_size-read_varint output = read_size-read_loop 10 0 0 [] output

check_responses-frame :
    (message : List ℕ)
    → length message < 2 ^ 70
    → check_responses (frame message) 1 ≡ check_response message
check_responses-frame message h = elim (Result-cases (check_response message)) [
  | inl (tt, e) ↦
      unfold join_frames in
      (rw append-nil at (check_responses-frames (message ∷ []) 1 ((h, e), tt))) ∙ sym e
  | inr (x, e) ↦
      unfold join_frames in
      (rw append-nil at (check_responses-failing [] message [] 1 tt h e)) ∙ sym e
]

read_size-frame :
    (message later : List ℕ)
    → length message < 2 ^ 70
    → read_size 10 0 [] 0 (frame message ++ later)
      ≡ ok (varint (length message), length message, message ++ later)
unfolding frame
read_size-frame message later h =
    let size = varint (length message) in
    read_size-read_varint (frame message ++ later)
    ∙ rw (
      append_assoc size message later,
      read_varint-varint (length message) 0 (size ++ (message ++ later)) (message ++ later) h refl,
      zero-add (length size),
      take-append size (message ++ later),
      drop-append size (message ++ later),
    )

-- A worker that answers a request with one framed response: the call raises what the response
-- reports, or leaves just the bytes behind the response in the pipe.
pub compile_request-frame :
    (host : Host) (respond : List ℕ → List ℕ) (arguments inputs : List String)
    (sent request_bytes message later : List ℕ)
    → request host arguments inputs ≡ ok request_bytes
    → respond request_bytes ≡ frame message ++ later
    → length message < 2 ^ 70
    → compile_request host respond arguments inputs (record { sent = sent; output = [] }) ≡ (
        check_response message >>= λ _.
        ok (record { sent = sent ++ request_bytes; output = later }))
unfolding compile_request read_response_from frame
compile_request-frame host respond arguments inputs sent request_bytes message later r a h = rw (
  r,
  a,
  read_size-frame message later h,
  take-append message later,
  drop-append message later,
  check_responses-frame message h,
)
