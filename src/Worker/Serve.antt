-- ===== src/Worker/Serve.antt =====
-- elide/private/ic_worker/IncrementalWorker.java: the loop of `main` over the requests on its input.
-- What the outside does is a parameter, by the number of the call.
use rules_elide.Prelude.{
  ℕ, zero, suc, ◌+◌, ◌≤◌, ◌<◌, ◌≡◌, ◌∙◌, refl, ap, List, [], ◌∷◌, ◌++◌, arith, All, none, some,
  length, Result, ok, err,
}
use rules_elide.Prelude.Text.{Text}
use rules_elide.Worker.Codec.{CodecError, out_of_fuel}
use rules_elide.Worker.Messages.{
  WorkRequest, WorkResponse, max_message, read_message, parse_request, parse_delimited_request,
  write_request, write_response,
}
use rules_elide.Worker.Messages.Forward.{parse_delimited_request-write_request}
use rules_elide.Worker.Messages.Arguments.{IsCarried}
use rules_elide.Worker.Messages.Identity.{parse_request-request_id}
use rules_elide.Worker.Incremental.{Env, Worker, Failure, Outside, respond}
use rules_elide.Worker.Incremental.Replies.{respond-answers}

-- Requests and responses on a stream.
unfoldable pub sent : List WorkRequest → List ℕ
sent [] = []
sent (request ∷ requests) = write_request request ++ sent requests

unfoldable pub received : List WorkResponse → List ℕ
received [] = []
received (response ∷ responses) = write_response response ++ received responses

-- A request that was read from a message that the reader takes.
pub record WasRead (env : Env) (request : WorkRequest) : Type 0 where
  pub message : List ℕ
  pub fits : length message ≤ max_message
  pub read : parse_request env.digests.utf8 message ≡ ok request

module _ (env : Env) (describe : Failure → Text) (outsides : ℕ → Outside) where
  -- The bytes that are written, and the worker at the end of the input, or the exception of `main`.
  unfoldable pub serve : ℕ → ℕ → List ℕ → Worker → List ℕ × Result CodecError Worker
  serve zero n input w = ([], err out_of_fuel)
  serve (suc fuel) n input w = elim (parse_delimited_request env.digests.utf8 input) [
    | err e ↦ ([], err e)
    | ok (request, left) ↦ elim request [
      | none ↦ ([], ok w)
      | some asked ↦
          let (after, answer) = respond env describe (outsides n) asked w in
          elim answer [
            | err e ↦ ([], err e)
            | ok response ↦
                let (more, end) = serve fuel (n + 1) left after in
                (write_response response ++ more, end)
          ]
    ]
  ]

  -- The responses to requests that come one after the other.
  unfoldable pub answers : ℕ → List WorkRequest → Worker → List WorkResponse × Worker
  answers n [] w = ([], w)
  answers n (request ∷ requests) w =
      let (after, answer) = respond env describe (outsides n) request w in
      elim answer [
        | err e ↦ ([], after)
        | ok response ↦
            let (responses, end) = answers (n + 1) requests after in (response ∷ responses, end)
      ]

  serve-step :
      (fuel n : ℕ) (input left : List ℕ) (request : WorkRequest) (w : Worker) {r : WorkResponse}
      → parse_delimited_request env.digests.utf8 input ≡ ok (some request, left)
      → (respond env describe (outsides n) request w).1 ≡ ok r
      → serve (suc fuel) n input w ≡ (
          let later = serve fuel (n + 1) left (respond env describe (outsides n) request w).0 in
          (write_response r ++ later.0, later.1))
  unfolding serve
  serve-step fuel n input left request w e f = ground (arith, e, f)

  answers-step :
      (n : ℕ) (request : WorkRequest) (requests : List WorkRequest) (w : Worker) {r : WorkResponse}
      → (respond env describe (outsides n) request w).1 ≡ ok r
      → answers n (request ∷ requests) w ≡ (
          let later = answers (n + 1) requests (respond env describe (outsides n) request w).0 in
          (r ∷ later.0, later.1))
  unfolding answers
  answers-step n request requests w f = ground (arith, f)

  -- Where the codec carries the messages of the exceptions, each request was read from a message of
  -- 64 MiB at most and the fuel is above their number, each request on the input gets one response,
  -- in order, and the loop ends with the input.
  pub serve-sent :
      (requests : List WorkRequest) (fuel n : ℕ) (w : Worker)
      → ((e : Failure) → IsCarried env.digests.utf8 (describe e))
      → All (WasRead env) requests
      → length requests < fuel
      → (serve fuel n (sent requests) w
          ≡ (received (answers n requests w).0, ok (answers n requests w).1))
        × (length (answers n requests w).0 ≡ length requests)
  unfolding serve answers sent received
  serve-sent requests zero n w carried was enough = absurd (omega (arith, enough))
  serve-sent [] (suc fuel) n w carried was enough =
      (unfold parse_delimited_request read_message in refl, refl)
  serve-sent (request ∷ requests) (suc fuel) n w carried was enough =
      let here =
        parse_delimited_request-write_request env.digests.utf8 was.0.message (sent requests)
          was.0.fits was.0.read in
      let (r, answer) =
        respond-answers env describe (outsides n) request w carried
          (parse_request-request_id env.digests.utf8 was.0.message was.0.read) in
      let (rest, as_many) =
        serve-sent requests fuel (n + 1) (respond env describe (outsides n) request w).0 carried
          was.1 (omega (arith, enough)) in
      (
        serve-step fuel n (sent (request ∷ requests)) (sent requests) request w here answer
            ∙ rw (rest, answers-step n request requests w answer),
        rw (answers-step n request requests w answer) (ap suc as_many),
      )
