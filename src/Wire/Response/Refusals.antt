-- ===== src/Wire/Response/Refusals.antt =====
-- How `check_responses` refuses a stream: at its first failing response, and at a cut one.
use rules_elide.Prelude.{
  ℕ, zero, suc, ◌+◌, ◌^◌, ◌≤◌, ◌<◌, ◌≡◌, ◌≢◌, refl, ap, ◌∙◌, ◌⊎◌, List, ◌∷◌, ◌++◌, arith, Option,
  none, some, err, Result-cases, inl, inr, length, drop, All, length-append, length-drop,
  drop_behind, drop-append, append_cut,
}
use rules_elide.Wire.Varint.{
  WireError, out_of_fuel, truncated_varint, truncated_response, varint, read_varint,
}
use rules_elide.Wire.Varint.Decode.{
  read_varint-varint, read_varint_bounds, read_varint-ne-fuel, read_varint_cut,
}
use rules_elide.Wire.Varint.Encode.{varint-groups, length-groups}
use rules_elide.Wire.Fields.{FieldValue, number, bytes, slice, fields}
use rules_elide.Wire.Fields.Laws.{fields-ne-fuel}
use rules_elide.Wire.Response.{
  check_response, framed, read_response, responses_loop, check_responses, failure, get_last,
}
use rules_elide.Wire.Response.Laws.{
  Passes, frame, join_frames, read_response-frame, read_response_bounds, responses_loop-step,
  responses_loop-frames,
}

responses_loop_fails :
    (fuel offset count : ℕ) (stream : List ℕ) {e : WireError}
    → offset < length stream
    → length stream ≤ offset + fuel
    → read_response stream offset ≡ err e
    → responses_loop fuel stream offset count ≡ err e
responses_loop_fails zero offset count stream h enough f = absurd (omega arith)
responses_loop_fails (suc fuel) offset count stream h enough f =
    responses_loop-step fuel offset count stream h ∙ rw f

-- The responses in front pass, and what stands behind them is refused: so is the stream.
refused_behind :
    (messages : List (List ℕ)) (rest : List ℕ) (expected : ℕ) {e : WireError}
    → All Passes messages
    → 0 < length rest
    → read_response (join_frames messages ++ rest) (length (join_frames messages)) ≡ err e
    → check_responses (join_frames messages ++ rest) expected ≡ err e
unfolding check_responses
refused_behind messages rest expected {e} pass h f =
    let front = join_frames messages in
    let stream = front ++ rest in
    let counted =
      responses_loop-frames messages (length stream) 0 0 (length front) (length messages) stream
        rest (err e) pass (omega arith) (omega arith) refl (omega arith) (omega arith)
        (λ left enough.
          responses_loop_fails left (length front) (length messages) stream
            (omega (arith, length-append front rest)) enough f) in
    rw counted

frame_pos : (message rest : List ℕ) → length message < 2 ^ 70 → 0 < length (frame message ++ rest)
unfolding frame
frame_pos message rest h = omega (
  arith,
  length-groups 9 (length message),
  ap length (varint-groups 9 (length message) h),
  length-append (varint (length message)) message,
  length-append (varint (length message) ++ message) rest,
)

-- The first response that fails decides the error, whatever follows it.
pub check_responses-failing :
    (messages : List (List ℕ)) (bad rest : List ℕ) (expected : ℕ) {e : WireError}
    → All Passes messages
    → length bad < 2 ^ 70
    → check_response bad ≡ err e
    → check_responses (join_frames messages ++ (frame bad ++ rest)) expected ≡ err e
check_responses-failing messages bad rest expected {e} pass h f =
    let front = join_frames messages in
    refused_behind messages (frame bad ++ rest) expected pass (frame_pos bad rest h) (
      read_response-frame (length front) bad (front ++ (frame bad ++ rest)) rest h
        (drop-append front (frame bad ++ rest))
      ∙ rw f)

framed_short :
    (stream : List ℕ) (start size : ℕ) (part : List ℕ)
    → drop start stream ≡ part
    → start ≤ length stream
    → length part < size
    → framed stream start (start + size) ≡ err truncated_response
unfolding framed
framed_short stream start size part at_part room less =
    ground (arith, length-drop start stream, ap length at_part)

read_response_cut :
    (message stream front back : List ℕ) (offset x : ℕ)
    → length message < 2 ^ 70
    → frame message ≡ front ++ x ∷ back
    → offset ≤ length stream
    → drop offset stream ≡ front
    → (read_response stream offset ≡ err truncated_varint)
      ⊎ (read_response stream offset ≡ err truncated_response)
unfolding read_response frame
read_response_cut message stream front back offset x h e inside f =
    let size = varint (length message) in
    elim (append_cut size message front back x e) [
      | inl (y, more, g) ↦
          inl (rw (read_varint_cut (length message) offset y stream front more h g f))
      | inr (part, g, k) ↦
          let at_size : drop offset stream ≡ size ++ part = f ∙ g in
          let read = read_varint-varint (length message) offset stream part h at_size in
          inr (
            rw read (
              framed_short stream (offset + length size) (length message) part
                (drop_behind offset stream size at_size)
                (read_varint_bounds stream offset (length message) (offset + length size) read).2
                (omega (arith, ap length k, length-append part (x ∷ back)))))
    ]

-- A stream that ends inside a response is refused as truncated, whatever number is expected.
pub check_responses-cut :
    (messages : List (List ℕ)) (message front back : List ℕ) (x expected : ℕ)
    → All Passes messages
    → length message < 2 ^ 70
    → frame message ≡ front ++ x ∷ back
    → 0 < length front
    → (check_responses (join_frames messages ++ front) expected ≡ err truncated_varint)
      ⊎ (check_responses (join_frames messages ++ front) expected ≡ err truncated_response)
check_responses-cut messages message front back x expected pass h e some_left =
    let stream = join_frames messages in
    elim (read_response_cut message (stream ++ front) front back (length stream) x h e
      (omega (arith, length-append stream front)) (drop-append stream front)) [
        | inl f ↦ inl (refused_behind messages front expected pass some_left f)
        | inr f ↦ inr (refused_behind messages front expected pass some_left f)
      ]

failure-ne-fuel : (o : Option FieldValue) → failure o ≢ out_of_fuel
unfolding failure
failure-ne-fuel none e = cc
failure-ne-fuel (some (number n)) e = cc
failure-ne-fuel (some (bytes output)) e = cc

check_response-ne-fuel : (message : List ℕ) → check_response message ≢ err out_of_fuel
unfolding check_response
check_response-ne-fuel message e = elim (Result-cases (fields message)) [
  | inr (x, h) ↦ fields-ne-fuel message (cc (h))
  | inl (response, h) ↦ ground (arith, h, failure-ne-fuel (get_last 2 response))
]

read_response-ne-fuel :
    (stream : List ℕ) (offset : ℕ) → read_response stream offset ≢ err out_of_fuel
unfolding read_response framed
read_response-ne-fuel stream offset e = elim (Result-cases (read_varint stream offset)) [
  | inr (x, h) ↦ read_varint-ne-fuel stream offset (cc (h))
  | inl ((size, start), h) ↦
      elim (Result-cases (check_response (slice stream start (start + size)))) [
        | inr (x, k) ↦
            ground (arith, h, k, check_response-ne-fuel (slice stream start (start + size)))
        | inl (u, k) ↦ ground (arith, h, k)
      ]
]

responses_loop-ne-fuel :
    (fuel offset count : ℕ) (stream : List ℕ)
    → length stream ≤ offset + fuel
    → responses_loop fuel stream offset count ≢ err out_of_fuel
unfolding responses_loop
responses_loop-ne-fuel zero offset count stream h e = ground arith
responses_loop-ne-fuel (suc fuel) offset count stream h e =
    elim (Result-cases (read_response stream offset)) [
      | inr (x, k) ↦ ground (arith, k, read_response-ne-fuel stream offset)
      | inl (next, k) ↦ ground (
        arith,
        k,
        read_response_bounds stream offset next k,
        responses_loop-ne-fuel fuel next (count + 1) stream,
      )
    ]

-- `check_responses` ends on every stream: it accepts or raises one of the program's errors.
pub check_responses-ne-fuel :
    (stream : List ℕ) (expected : ℕ) → check_responses stream expected ≢ err out_of_fuel
unfolding check_responses
check_responses-ne-fuel stream expected e =
    elim (Result-cases (responses_loop (length stream) stream 0 0)) [
      | inr (x, h) ↦ responses_loop-ne-fuel (length stream) 0 0 stream (omega arith) (cc (h))
      | inl (count, h) ↦ ground (arith, h)
    ]
