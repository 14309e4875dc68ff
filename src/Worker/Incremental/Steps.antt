-- ===== src/Worker/Incremental/Steps.antt =====
-- `handle` call by call: what it keeps of the state, and what it remembers of an output.
use rules_elide.Prelude.{
  ℕ, ◌≡◌, ◌⊎◌, refl, ap, sym, subst, true, false, List, [], ◌∷◌, arith, some, Option-cases,
  Bool-cases, ok, err, Result-cases, inl, inr, not, ◌==◌, ◌||◌,
}
use rules_elide.Prelude.Text.{Text, text_eq, text_eq_iff, has_text}
use rules_elide.Prelude.Dict.{lookup, lookup-insert}
use rules_elide.Worker.Messages.{WorkRequest, WorkResponse, with_arguments}
use rules_elide.Worker.Signature.{signature}
use rules_elide.Worker.Incremental.{
  Env, TargetState, Worker, Failure, Outside, start, remove_root, forget, compile, positions,
  no_inputs, new_target, target_for, compiler_arguments, try_compile, handle, run, codec_failed,
  pack_failed,
}
use rules_elide.Worker.Incremental.State.{
  Inv, InvBut, start-Inv, absent-InvBut, removed-InvBut, forget-Inv, insert-Inv, text_eq_self,
}

-- A call that takes any of the ways through `try` and `catch`.
module _ (env : Env) (outside : Outside) (output : Text) (target : TargetState)
    (request : WorkRequest) (args : List Text) (w : Worker) where
  unfoldable pub dropped : Worker
  dropped = record {
    states = forget output w.states;
    roots = remove_root target.root w.roots;
    running = true;
  }

  pub try_compile_cases :
      ((e : Failure) × (try_compile env outside output target request args w ≡ (start, err e)))
      ⊎ (((r : WorkResponse) × ((r.exit_code == 0) ≡ true)
            × (try_compile env outside output target request args w
                ≡ (record w { running = true }, ok r)))
          ⊎ ((r : WorkResponse) × ((r.exit_code == 0) ≡ false)
              × (try_compile env outside output target request args w ≡ (dropped, ok r))))
  unfolding try_compile dropped
  try_compile_cases = elim (Result-cases (with_arguments env.digests.utf8 args request)) [
    | inr (e, bad) ↦ inl (codec_failed e, ground (arith, bad))
    | inl (sent, good) ↦ elim (Result-cases (compile outside sent)) [
      | inr (e, bad) ↦ inl (e, ground (arith, good, bad))
      | inl (r, answered) ↦ elim (Bool-cases (r.exit_code == 0)) [
        | inr failed ↦ inr (inr (r, failed, ground (arith, good, answered, failed)))
        | inl success ↦ elim (Bool-cases outside.packs) [
          | inl written ↦ inr (inl (r, success, ground (arith, good, answered, success, written)))
          | inr lost ↦ inl (pack_failed, ground (arith, good, answered, success, lost))
        ]
      ]
    ]
  ]

-- What `target_for` leaves: the state of the output, with the signature of the request, is in place,
-- and the other outputs have what they had.
pub record Prepared (env : Env) (output : Text) (request : WorkRequest) (w w' : Worker)
    (target : TargetState) : Type 0 where
  pub valid : Inv w'
  pub placed : lookup output w'.states ≡ some target
  pub signed : target.last_signature ≡ signature env.digests request
  pub others : (k : Text) → text_eq output k ≡ false → lookup k w'.states ≡ lookup k w.states

module _ (env : Env) (new : (roots : List Text) → has_text (env.fresh roots) roots ≡ false)
    (output : Text) (request : WorkRequest) where
  new_target-Prepared :
      (w before : Worker)
      → w.states ≡ before.states
      → InvBut output w.states w.roots
      → Prepared env output request before
          (new_target env output (signature env.digests request) w).0
          (new_target env output (signature env.digests request) w).1
  unfolding new_target
  new_target-Prepared w before same v =
      let target : TargetState = record {
        last_signature = signature env.digests request;
        root = env.fresh w.roots;
      } in
      record {
        valid = insert-Inv output target w.states w.roots w.running v (new w.roots);
        placed = rw (lookup-insert output output target w.states, text_eq_self output);
        signed = refl;
        others = λ k n. rw (lookup-insert output k target w.states, n) (ap (λ d. lookup k d) same);
      }

  abbrev OfPair : Worker → Worker × TargetState → Type 0
  OfPair w p = Prepared env output request w p.0 p.1

  pub target_for-Prepared : (w : Worker) → Inv w → OfPair w (target_for env output request w)
  unfolding target_for
  target_for-Prepared w v = elim (Option-cases (lookup output w.states)) [
    | inl absent ↦
        let here : target_for env output request w ≡ new_target env output signed w =
          ground (arith, absent) in
        subst (OfPair w) (sym here) (new_target-Prepared w w refl (absent-InvBut output w v absent))
    | inr (target, found) ↦
        elim (Bool-cases (not (text_eq signed target.last_signature) || no_inputs request.inputs)) [
          | inl stale ↦
              let cleared : Worker = record w { roots = remove_root target.root w.roots } in
              let here : target_for env output request w ≡ new_target env output signed cleared =
                ground (arith, found, stale) in
              subst (OfPair w) (sym here)
                (new_target-Prepared cleared w refl (removed-InvBut output target w v found))
          | inr same ↦
              let here : target_for env output request w ≡ (w, target) =
                ground (arith, found, same) in
              subst (OfPair w) (sym here) (record {
                valid = v;
                placed = found;
                signed = ground (arith, same, text_eq_iff signed target.last_signature);
                others = λ k n. refl;
              })
        ]
  ]
    where
      signed : Text
      signed = signature env.digests request

-- A call with valid arguments, by what it prepares.
module _ (env : Env) (outside : Outside) (request : WorkRequest) (w : Worker) where
  pub handle-refused :
      {e : Failure}
      → positions request.arguments ≡ err e
      → handle env outside request w ≡ (w, err e)
  unfolding handle
  handle-refused h = ground (arith, h)

  pub handle-try_compile :
      {separator destination : ℕ} {written : Text}
      → positions request.arguments ≡ ok (separator, destination, written)
      → handle env outside request w ≡ (
          let prepared = target_for env (env.absolute written) request w in
          try_compile env outside
            (env.absolute written)
            prepared.1
            request
            (compiler_arguments env separator destination prepared.1 request.arguments)
            prepared.0)
  unfolding handle
  handle-try_compile h = rw (handle, h)

module _ (env : Env) (new : (roots : List Text) → has_text (env.fresh roots) roots ≡ false) where
  try_compile-Inv :
      (outside : Outside) (output : Text) (target : TargetState) (request : WorkRequest)
      (args : List Text) (w : Worker)
      → Inv w
      → lookup output w.states ≡ some target
      → Inv (try_compile env outside output target request args w).0
  unfolding dropped
  try_compile-Inv outside output target request args w v placed =
      elim (try_compile_cases env outside output target request args w) [
        | inl (e, h) ↦ subst (λ p. Inv p.0) (sym h) start-Inv
        | inr (inl (r, success, h)) ↦
            subst (λ p. Inv p.0) (sym h)
              (record { owned = v.owned; claimed = v.claimed; apart = v.apart })
        | inr (inr (r, failed, h)) ↦
            subst (λ p. Inv p.0) (sym h)
              (forget-Inv output w.states (remove_root target.root w.roots) true
                (removed-InvBut output target w v placed))
      ]

  -- Whatever the compiler and the jar writer do, a call leaves each output with a directory of its own
  -- and no other directory.
  pub handle-Inv :
      (outside : Outside) (request : WorkRequest) (w : Worker)
      → Inv w
      → Inv (handle env outside request w).0
  handle-Inv outside request w v = elim (Result-cases (positions request.arguments)) [
    | inr (e, h) ↦ subst (λ p. Inv p.0) (sym (handle-refused env outside request w h)) v
    | inl ((separator, destination, written), h) ↦
        let output = env.absolute written in
        let prepared = target_for-Prepared env new output request w v in
        subst (λ p. Inv p.0) (sym (handle-try_compile env outside request w h))
          (try_compile-Inv outside output _ request _ _ prepared.valid prepared.placed)
  ]

  run-Inv : (calls : List (Outside × WorkRequest)) (w : Worker) → Inv w → Inv (run env calls w)
  unfolding run
  run-Inv [] w v = v
  run-Inv ((outside, request) ∷ calls) w v =
      run-Inv calls (handle env outside request w).0 (handle-Inv outside request w v)

  -- Where a new directory has a name that no directory has, after any sequence of calls each output
  -- has a directory of its own that exists, and no other directory is left.
  pub run-start-Inv : (calls : List (Outside × WorkRequest)) → Inv (run env calls start)
  run-start-Inv calls = run-Inv calls start start-Inv
