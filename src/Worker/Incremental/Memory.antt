-- ===== src/Worker/Incremental/Memory.antt =====
-- What the incremental worker remembers of an output, against a specification on signatures alone.
use rules_elide.Prelude.{
  ℕ, ◌≡◌, ◌∙◌, refl, ap, sym, subst, false, List, Option, none, some, Bool-cases, Result, ok, err,
  inl, inr, if◌then◌else◌, ◌==◌,
}
use rules_elide.Prelude.Text.{Text, text_eq, text_eq_iff, has_text}
use rules_elide.Prelude.Dict.{lookup}
use rules_elide.Worker.Messages.{WorkRequest, WorkResponse}
use rules_elide.Worker.Signature.{signature}
use rules_elide.Worker.Incremental.{
  Env, TargetState, Worker, Failure, Outside, start, positions, try_compile, handle,
}
use rules_elide.Worker.Incremental.State.{Inv, forget-other, forget-gone}
use rules_elide.Worker.Incremental.Steps.{
  dropped, try_compile_cases, Prepared, target_for-Prepared, handle-try_compile,
}

-- The signature that the worker remembers for an output.
abbrev pub signature_of : Option TargetState → Option Text
signature_of none = none
signature_of (some target) = some target.last_signature

abbrev pub remembered : Worker → Text → Option Text
remembered w k = signature_of (lookup k w.states)

-- What is to be remembered after a call for `output`: success keeps the signature of the request, a
-- failed compile forgets the output, and an exception forgets all.
unfoldable pub remember :
    Text → Text → Result Failure WorkResponse → (Text → Option Text) → Text → Option Text
remember output signed (err e) before k = none
remember output signed (ok r) before k =
    if text_eq output k then (if r.exit_code == 0 then some signed else none) else before k

module _ (env : Env) (new : (roots : List Text) → has_text (env.fresh roots) roots ≡ false) where
  abbrev Remembers : Text → Text → Worker → Text → Worker × Result Failure WorkResponse → Type 0
  Remembers output signed w k p = remembered p.0 k ≡ remember output signed p.1 (remembered w) k

  try_compile-Remembers :
      (outside : Outside) (output : Text) (target : TargetState) (request : WorkRequest)
      (args : List Text) (before w : Worker) (k : Text)
      → Prepared env output request before w target
      → Remembers output
          (signature env.digests request)
          before
          k
          (try_compile env outside output target request args w)
  unfolding dropped remember
  try_compile-Remembers outside output target request args before w k p =
      elim (try_compile_cases env outside output target request args w) [
        | inl (e, h) ↦
            subst (Remembers output signed before k) (sym h) (unfold start lookup in refl)
        | inr (inl (r, success, h)) ↦
            subst (Remembers output signed before k) (sym h) (elim (Bool-cases (text_eq output k)) [
              | inl same ↦
                  let found : lookup k w.states ≡ some target =
                    ap (λ x. lookup x w.states) (sym ((text_eq_iff output k).0 same)) ∙ p.placed in
                  rw (found, same, success) (ap some p.signed)
              | inr n ↦ rw (n, p.others k n)
            ])
        | inr (inr (r, failed, h)) ↦
            subst (Remembers output signed before k) (sym h) (elim (Bool-cases (text_eq output k)) [
              | inl same ↦ rw (forget-gone output k w.states same, same, failed)
              | inr n ↦ rw (forget-other output k w.states n, n, p.others k n)
            ])
      ]
    where
      signed : Text
      signed = signature env.digests request

  -- Where a new directory has a name that no directory has and the state is valid, a call with
  -- valid arguments remembers, for every output, what `remember` says.
  pub handle-remember :
      (outside : Outside) (request : WorkRequest) (w : Worker) {separator destination : ℕ}
      {written : Text}
      → Inv w
      → positions request.arguments ≡ ok (separator, destination, written)
      → (k : Text)
      → remembered (handle env outside request w).0 k
        ≡ remember
            (env.absolute written)
            (signature env.digests request)
            (handle env outside request w).1
            (remembered w)
            k
  handle-remember outside request w {written = written} v h k =
      subst (Remembers (env.absolute written) (signature env.digests request) w k)
        (sym (handle-try_compile env outside request w h))
        (try_compile-Remembers outside (env.absolute written) _ request _ w _ k
          (target_for-Prepared env new (env.absolute written) request w v))
