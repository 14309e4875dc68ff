-- ===== src/Worker/Incremental/Replies.antt =====
-- The response to a request of the incremental worker.
use rules_elide.Prelude.{
  ℕ, ◌^◌, ◌<◌, ◌≡◌, ◌∙◌, refl, ap, sym, List, arith, All, Option-cases, Result, ok, Result-cases,
  inl, inr,
}
use rules_elide.Prelude.Text.{Text}
use rules_elide.Worker.Messages.{WorkRequest, WorkResponse, parse_request, with_arguments}
use rules_elide.Worker.Messages.Arguments.{IsShort, IsCarried}
use rules_elide.Worker.Messages.Identity.{with_arguments-request_id, parse_request-request_id}
use rules_elide.Worker.Messages.Failure.{failed, error_response-failed}
use rules_elide.Worker.Incremental.{
  Env, TargetState, Worker, Failure, Outside, compile, positions, target_for, compiler_arguments,
  try_compile, handle, respond,
}
use rules_elide.Worker.Incremental.Steps.{handle-try_compile, handle-refused}

compile-request_id :
    (outside : Outside) (sent : WorkRequest) {r : WorkResponse}
    → compile outside sent ≡ ok r
    → r.request_id ≡ sent.request_id
unfolding compile
compile-request_id outside sent {r} e = elim (Result-cases (outside.reply sent)) [
  | inr (x, bad) ↦ absurd (ground (arith, bad, e))
  | inl (reply, good) ↦ elim (Option-cases reply) [
    | inl closed ↦ absurd (ground (arith, good, closed, e))
    | inr (response, answered) ↦ ground (arith, good, answered, e)
  ]
]

module _ (env : Env) where
  try_compile-request_id :
      (outside : Outside) (output : Text) (target : TargetState) (bytes : List ℕ)
      (request : WorkRequest) (args : List Text) (w : Worker) {r : WorkResponse}
      → parse_request env.digests.utf8 bytes ≡ ok request
      → All (IsShort env.digests.utf8) args
      → (try_compile env outside output target request args w).1 ≡ ok r
      → r.request_id ≡ request.request_id
  unfolding try_compile
  try_compile-request_id outside output target bytes request args w {r} p short e =
      elim (Result-cases (with_arguments env.digests.utf8 args request)) [
        | inr (x, bad) ↦ absurd (ground (arith, bad, e))
        | inl (sent, good) ↦ elim (Result-cases (compile outside sent)) [
          | inr (x, bad) ↦ absurd (ground (arith, good, bad, e))
          | inl (response, answered) ↦
              let same : response.request_id ≡ request.request_id =
                compile-request_id outside sent answered
                ∙ with_arguments-request_id env.digests.utf8 bytes args short p good in
              ground (arith, good, answered, e, same)
        ]
      ]

  -- The arguments that the compiler gets for a request are short.
  abbrev pub SendsShort : WorkRequest → Worker → Type 0
  SendsShort request w =
      (separator destination : ℕ) (written : Text)
      → positions request.arguments ≡ ok (separator, destination, written)
      → All (IsShort env.digests.utf8) (
          compiler_arguments env separator destination
            (target_for env (env.absolute written) request w).1 request.arguments)

  -- Where the codec carries the messages of the exceptions and the arguments for the compiler are
  -- short, a request that was read is answered, by the compiler or with an error, under its own id.
  pub respond-request_id :
      (describe : Failure → Text) (outside : Outside) (bytes : List ℕ) (request : WorkRequest)
      (w : Worker)
      → ((e : Failure) → IsCarried env.digests.utf8 (describe e))
      → parse_request env.digests.utf8 bytes ≡ ok request
      → SendsShort request w
      → (r : WorkResponse) × ((respond env describe outside request w).1 ≡ ok r)
        × (r.request_id ≡ request.request_id)
  unfolding respond failed
  respond-request_id describe outside bytes request w carried p short =
      elim (Result-cases (handle env outside request w).1) [
        | inr (x, bad) ↦
            let answer =
              error_response-failed env.digests.utf8 request.request_id (describe x) (carried x)
                (parse_request-request_id env.digests.utf8 bytes p) in
            (
              failed env.digests.utf8 request.request_id (describe x),
              ground (arith, bad, answer),
              refl,
            )
        | inl (response, good) ↦ elim (Result-cases (positions request.arguments)) [
          | inr (x, refused) ↦
              absurd (ground (arith, good, handle-refused env outside request w refused))
          | inl ((separator, destination, written), h) ↦
              let made =
                ap (λ (q : Worker × Result Failure WorkResponse). q.1)
                  (handle-try_compile env outside request w h) in
              let id =
                try_compile-request_id outside (env.absolute written) _ bytes request _ _
                  {r = response} p (short separator destination written h) (sym made ∙ good) in
              (response, ground (arith, good), id)
        ]
      ]

  pub respond-answers :
      (describe : Failure → Text) (outside : Outside) (request : WorkRequest) (w : Worker)
      → ((e : Failure) → IsCarried env.digests.utf8 (describe e))
      → request.request_id < 2 ^ 32
      → (r : WorkResponse) × ((respond env describe outside request w).1 ≡ ok r)
  unfolding respond
  respond-answers describe outside request w carried h =
      elim (Result-cases (handle env outside request w).1) [
        | inr (x, bad) ↦ (
          failed env.digests.utf8 request.request_id (describe x),
          ground (
            arith,
            bad,
            error_response-failed env.digests.utf8 request.request_id (describe x) (carried x) h,
          ),
        )
        | inl (response, good) ↦ (response, ground (arith, good))
      ]
