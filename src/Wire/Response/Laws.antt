-- ===== src/Wire/Response/Laws.antt =====
-- What `check_responses` accepts and refuses: a stream of framed responses.
use rules_elide.Prelude.{
  ℕ, zero, suc, ◌+◌, ◌^◌, ◌≤◌, ◌<◌, ◌≡◌, ◌∙◌, sym, append-nil, List, [], ◌∷◌, ◌++◌, append_assoc,
  arith, Result, ok, err, ◌>>=◌, Result-cases, inl, inr, length, drop, All, length-append,
  drop_behind, lt→ltb, ◌==◌, if◌then◌else◌,
}
use rules_elide.Wire.Varint.{WireError, wrong_count, varint, read_varint}
use rules_elide.Wire.Varint.Decode.{read_varint-varint, read_varint_bounds}
use rules_elide.Wire.Fields.{slice}
use rules_elide.Wire.Fields.Laws.{slice_at}
use rules_elide.Wire.Response.{check_response, read_response, responses_loop, check_responses}

-- A message behind its length, as a worker sends it.
unfoldable pub frame : List ℕ → List ℕ
frame message = varint (length message) ++ message

unfoldable pub join_frames : List (List ℕ) → List ℕ
join_frames [] = []
join_frames (message ∷ rest) = frame message ++ join_frames rest

pub read_response-frame :
    (offset : ℕ) (message stream rest : List ℕ)
    → length message < 2 ^ 70
    → drop offset stream ≡ frame message ++ rest
    → read_response stream offset
      ≡ (check_response message >>= λ _. ok (offset + length (frame message)))
unfolding read_response frame
read_response-frame offset message stream rest h e =
    let size = varint (length message) in
    let at_size : drop offset stream ≡ size ++ (message ++ rest) =
      e ∙ append_assoc size message rest in
    let read = read_varint-varint (length message) offset stream (message ++ rest) h at_size in
    let at_message : drop (offset + length size) stream ≡ message ++ rest =
      drop_behind offset stream size at_size in
    let (part, room) =
      slice_at stream message rest (offset + length size)
        (read_varint_bounds stream offset (length message) (offset + length size) read).2
        at_message in
    rw read (ground (arith, part, room, length-append size message))

pub responses_loop-step :
    (fuel offset count : ℕ) (stream : List ℕ)
    → offset < length stream
    → responses_loop (suc fuel) stream offset count
      ≡ (read_response stream offset >>= λ next. responses_loop fuel stream next (count + 1))
unfolding responses_loop
responses_loop-step fuel offset count stream h = rw (lt→ltb offset (length stream) h)

-- A response that the loop passes over.
abbrev pub Passes : List ℕ → Type 0
Passes message = (length message < 2 ^ 70) × (check_response message ≡ ok tt)

pub read_response_bounds :
    (stream : List ℕ) (offset next : ℕ)
    → read_response stream offset ≡ ok next
    → (offset < next) × (next ≤ length stream)
unfolding read_response
read_response_bounds stream offset next e = elim (Result-cases (read_varint stream offset)) [
  | inr (x, h) ↦ cc (h)
  | inl ((size, start), h) ↦
      elim (Result-cases (check_response (slice stream start (start + size)))) [
        | inr (x, k) ↦ ground (arith, h, k)
        | inl (u, k) ↦ ground (arith, h, k, read_varint_bounds stream offset size start h)
      ]
]

module _ (offset : ℕ) (message stream rest : List ℕ) (pass : Passes message)
    (e : drop offset stream ≡ frame message ++ rest) where
  read_frame : read_response stream offset ≡ ok (offset + length (frame message))
  read_frame = rw pass.1 at (read_response-frame offset message stream rest pass.0 e)

  read_frame_bounds :
      (offset < offset + length (frame message)) × (offset + length (frame message) ≤ length stream)
  read_frame_bounds = read_response_bounds stream offset _ read_frame

-- The loop passes over such responses: its result is what it makes of the bytes behind them.
pub responses_loop-frames :
    (messages : List (List ℕ)) (fuel offset count end total : ℕ) (stream rest : List ℕ)
    (r : Result WireError ℕ)
    → All Passes messages
    → offset ≤ length stream
    → length stream ≤ offset + fuel
    → drop offset stream ≡ join_frames messages ++ rest
    → end ≡ offset + length (join_frames messages)
    → total ≡ count + length messages
    → ((left : ℕ) → length stream ≤ end + left → responses_loop left stream end total ≡ r)
    → responses_loop fuel stream offset count ≡ r
unfolding join_frames
responses_loop-frames [] fuel offset count end total stream rest r pass inside enough e he ht
      final =
    ground (arith, final fuel (omega arith))
responses_loop-frames (m ∷ ms) zero offset count end total stream rest r (pass, passes) inside
      enough e he ht final =
    absurd (
      omega (
        arith,
        read_frame_bounds offset m stream (join_frames ms ++ rest) pass
            (e ∙ append_assoc (frame m) (join_frames ms) rest),
      ))
responses_loop-frames (m ∷ ms) (suc fuel) offset count end total stream rest r (pass, passes) inside
      enough e he ht final =
    let at_frame : drop offset stream ≡ frame m ++ (join_frames ms ++ rest) =
      e ∙ append_assoc (frame m) (join_frames ms) rest in
    let read = read_frame offset m stream (join_frames ms ++ rest) pass at_frame in
    let bounds = read_frame_bounds offset m stream (join_frames ms ++ rest) pass at_frame in
    responses_loop-step fuel offset count stream (omega (arith, bounds))
    ∙ rw read (
        responses_loop-frames ms fuel (offset + length (frame m)) (count + 1) end total stream rest
          r passes bounds.1 (omega (arith, bounds)) (drop_behind offset stream (frame m) at_frame)
          (omega (arith, length-append (frame m) (join_frames ms))) (omega arith) final)

responses_loop_done :
    (fuel offset count : ℕ) (stream : List ℕ)
    → length stream ≤ offset
    → responses_loop fuel stream offset count ≡ ok count
unfolding responses_loop
responses_loop_done zero offset count stream h = ground arith
responses_loop_done (suc fuel) offset count stream h = ground arith

-- A stream of framed responses, none of which reports a failure, is accepted exactly when their
-- number is the expected one, and otherwise refused with the number received.
pub check_responses-frames :
    (messages : List (List ℕ)) (expected : ℕ)
    → All Passes messages
    → check_responses (join_frames messages) expected ≡ (
        if length messages == expected then ok tt else err (wrong_count expected (length messages)))
unfolding check_responses
check_responses-frames messages expected pass =
    let stream = join_frames messages in
    let counted =
      responses_loop-frames messages (length stream) 0 0 (length stream) (length messages) stream []
        (ok (length messages)) pass (omega arith) (omega arith) (sym (append-nil stream))
        (omega arith) (omega arith)
        (λ left h.
          responses_loop_done left (length stream) (length messages) stream (omega arith)) in
    rw counted
