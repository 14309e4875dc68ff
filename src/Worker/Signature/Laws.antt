-- ===== src/Worker/Signature/Laws.antt =====
-- elide/private/ic_worker/IncrementalWorker.java: edits that `signature` leaves to the compiler.
use rules_elide.Prelude.{
  ◌≡◌, ◌∙◌, refl, ap, Bool, ◌||◌, List, [], ◌∷◌, ◌++◌, map, arith, Bool-cases, inl, inr,
}
use rules_elide.Prelude.Text.{Text, codes, ends_with, has_text}
use rules_elide.Worker.Messages.{Input, WorkRequest}
use rules_elide.Worker.Signature.Classpath.{IsTracked, is_tracked_natively_iff}
use rules_elide.Worker.Signature.{
  Digests, classpath, insert_input, sort_inputs, is_tracked_natively, frames, input_blobs,
  signed_blobs, signature,
}

-- An edit of contents: paths stay, and so does every input but sources and ordinary jars of the
-- class path.
pub record IsEdit (arguments : List Text) (edit : Input → Input) : Type 0 where
  pub keeps_path : (i : Input) → (edit i).path ≡ i.path
  pub keeps_covered : (i : Input) → (¬ IsTracked arguments i.path) → edit i ≡ i

insert_input-map :
    (leb : Text → Text → Bool) (edit : Input → Input) (i : Input) (js : List Input)
    → ((j : Input) → (edit j).path ≡ j.path)
    → insert_input leb (edit i) (map edit js) ≡ map edit (insert_input leb i js)
unfolding insert_input
insert_input-map leb edit i [] keeps = refl
insert_input-map leb edit i (j ∷ js) keeps =
    let same : leb (edit i).path (edit j).path ≡ leb i.path j.path =
      ap (λ p. leb p (edit j).path) (keeps i) ∙ ap (λ p. leb i.path p) (keeps j) in
    elim (Bool-cases (leb i.path j.path)) [
      | inl here ↦ ground (arith, same, here)
      | inr there ↦ ground (arith, same, there, insert_input-map leb edit i js keeps)
    ]

sort_inputs-map :
    (leb : Text → Text → Bool) (edit : Input → Input) (is : List Input)
    → ((j : Input) → (edit j).path ≡ j.path)
    → sort_inputs leb (map edit is) ≡ map edit (sort_inputs leb is)
unfolding sort_inputs
sort_inputs-map leb edit [] keeps = refl
sort_inputs-map leb edit (i ∷ is) keeps =
    ap (insert_input leb (edit i)) (sort_inputs-map leb edit is keeps)
    ∙ insert_input-map leb edit i (sort_inputs leb is) keeps

module _ (digests : Digests) where
  open digests use {utf8, sha256, base64, path_leb}

  tracked-edit :
      (jars : List Text) (edit : Input → Input) (i : Input)
      → ((i : Input) → (edit i).path ≡ i.path)
      → is_tracked_natively jars (edit i) ≡ is_tracked_natively jars i
  unfolding is_tracked_natively
  tracked-edit jars edit i e =
      ap (λ p. ends_with p (codes ".kt") || ends_with p (codes ".java") || has_text p jars) (e i)

  input_blobs-map :
      (args : List Text) (edit : Input → Input) (is : List Input)
      → IsEdit args edit
      → input_blobs digests (classpath args) (map edit is) ≡ input_blobs digests (classpath args) is
  unfolding input_blobs
  input_blobs-map args edit [] e = refl
  input_blobs-map args edit (i ∷ is) e =
      let rest = input_blobs-map args edit is e in
      let path = tracked-edit (classpath args) edit i e.keeps_path in
      let (tracked, tracked') = is_tracked_natively_iff args i in
      elim (Bool-cases (is_tracked_natively (classpath args) i)) [
        | inl left_out ↦ ground (arith, path, left_out, rest)
        | inr covered ↦
            let same = e.keeps_covered i (λ h. cc (covered, tracked' h)) in
            ground (arith, same, covered, rest)
      ]

  signed_blobs-map :
      (request : WorkRequest) (edit : Input → Input)
      → IsEdit request.arguments edit
      → signed_blobs digests (record request { inputs = map edit request.inputs })
        ≡ signed_blobs digests request
  unfolding signed_blobs
  signed_blobs-map request edit e =
      ap (λ blobs. map utf8.encode request.arguments ++ blobs)
        (ap (input_blobs digests (classpath request.arguments))
            (sort_inputs-map path_leb edit request.inputs e.keeps_path)
          ∙ input_blobs-map request.arguments edit (sort_inputs path_leb request.inputs) e)

  -- New digests of sources and of ordinary class path jars keep the signature, where all paths and
  -- all other inputs stay. A source ends in `.kt` or `.java`; an ordinary jar ends in `.jar`, is an
  -- entry of an argument that follows `-classpath` or `-cp` behind the first `--`, if there is one,
  -- and no argument names a plugin or friend modules.
  pub signature-map :
      (request : WorkRequest) (edit : Input → Input)
      → IsEdit request.arguments edit
      → signature digests (record request { inputs = map edit request.inputs })
        ≡ signature digests request
  unfolding signature
  signature-map request edit e =
      ap (λ blobs. base64 (sha256 (frames blobs))) (signed_blobs-map request edit e)
