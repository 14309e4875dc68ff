-- ===== src/Worker/Incremental.antt =====
-- elide/private/ic_worker/IncrementalWorker.java: `compile`, `handle` and `close`, on the state of the
-- worker, and a round of `main`. The compiler process, the jar writer and the names of directories are parameters; deleting
-- and creating a directory succeed.
pub mod State
pub mod Steps
pub mod Memory
pub mod Replies
use rules_elide.Prelude.{
  ℕ, zero, suc, ◌+◌, ◌≤◌, ◌<◌, String, Bool, true, false, ◌||◌, ◌&&◌, not, List, [], ◌∷◌, ◌++◌,
  Option, none, some, Result, ok, err, ◌>>=◌, length, take, drop, get_elem?, ltb, ◌==◌,
  if◌then◌else◌,
}
use rules_elide.Prelude.Text.{Text, codes, text_eq, has_text}
use rules_elide.Prelude.Dict.{Dict, lookup, insert, filter_keys}
use rules_elide.Worker.Codec.{CodecError}
use rules_elide.Worker.Messages.{
  Utf8, Input, WorkRequest, WorkResponse, with_arguments, error_response,
}
use rules_elide.Worker.Signature.{Digests, index_of, signature}

pub record Env : Type 0 where
  pub digests : Digests
  -- `Path.of(arg).toAbsolutePath().normalize()`
  pub absolute : Text → Text
  pub resolve : Text → Text → Text
  -- `createTempDirectory(scratch, "target-")`, by the directories that exist.
  pub fresh : List Text → Text

-- `State`
pub record TargetState : Type 0 where
  pub last_signature : Text
  pub root : Text

-- The worker, with the directories under `scratch`.
pub record Worker : Type 0 where
  pub states : Dict TargetState
  pub roots : List Text
  pub running : Bool

-- The exceptions that leave `handle`.
pub data Failure : Type 0 where
  invalid_arguments mismatched_reply transport_failed pack_failed : Failure
  codec_failed : CodecError → Failure

-- What the outside does in one call: the reply to the request that is sent, where none is a closed
-- stream, and whether the jar is written.
pub record Outside : Type 0 where
  pub reply : WorkRequest → Result Failure (Option WorkResponse)
  pub packs : Bool

unfoldable pub start : Worker
start = record { states = []; roots = []; running = false }

-- `remove`
unfoldable pub remove_root : Text → List Text → List Text
remove_root root [] = []
remove_root root (r ∷ roots) =
    let rest = remove_root root roots in if text_eq r root then rest else r ∷ rest

-- `states.remove`
abbrev pub forget : Text → Dict TargetState → Dict TargetState
forget output states = filter_keys (λ key. not (text_eq output key)) states

-- `args.set(i, t)`
unfoldable pub set_at : ℕ → Text → List Text → List Text
set_at i t [] = []
set_at zero t (x ∷ xs) = t ∷ xs
set_at (suc i) t (x ∷ xs) = x ∷ set_at i t xs

-- `compile`, on what the compiler answers.
unfoldable pub compile : Outside → WorkRequest → Result Failure WorkResponse
compile outside request = outside.reply request >>= λ reply. elim reply [
  | none ↦ err mismatched_reply
  | some response ↦
      if response.request_id == request.request_id then ok response else err mismatched_reply
]

-- The index of `--` and of the output behind `-d`.
unfoldable pub positions : List Text → Result Failure (ℕ × ℕ × Text)
positions args = elim (index_of (codes "--") args) [
  | none ↦ err invalid_arguments
  | some separator ↦ elim (index_of (codes "-d") args) [
    | none ↦ err invalid_arguments
    | some destination ↦ elim (get_elem? args (destination + 1)) [
      | none ↦ err invalid_arguments
      | some output ↦
          if ltb separator destination
          then ok (separator, destination, output)
          else err invalid_arguments
    ]
  ]
]

-- `args.addAll(i, ts)`
abbrev pub insert_all : ℕ → List Text → List Text → List Text
insert_all i ts args = take i args ++ (ts ++ drop i args)

-- `getInputsCount() == 0`
abbrev pub no_inputs : List Input → Bool
no_inputs [] = true
no_inputs (i ∷ is) = false

module _ (env : Env) where
  open env use {digests, absolute, resolve, fresh}

  -- A new state for the output, in a new directory.
  unfoldable pub new_target : Text → Text → Worker → Worker × TargetState
  new_target output signature w =
      let target : TargetState = record { last_signature = signature; root = fresh w.roots } in
      (record w { states = insert output target w.states; roots = target.root ∷ w.roots }, target)

  -- The state that the call works on.
  unfoldable pub target_for : Text → WorkRequest → Worker → Worker × TargetState
  target_for output request w =
      let signed = signature digests request in
      elim (lookup output w.states) [
        | none ↦ new_target output signed w
        | some target ↦
            if not (text_eq signed target.last_signature) || no_inputs request.inputs
            then new_target output signed (record w { roots = remove_root target.root w.roots })
            else (w, target)
      ]

  -- The arguments of the compiler.
  unfoldable pub compiler_arguments : ℕ → ℕ → TargetState → List Text → List Text
  compiler_arguments separator destination target args =
      insert_all separator
        (codes "--incremental"
          ∷ codes "--incremental-cache-dir"
          ∷ resolve target.root (codes "cache")
          ∷ [])
        (set_at (destination + 1) (resolve target.root (codes "classes")) args)

  -- The `try` of `handle`; its `catch` clears everything.
  unfoldable pub try_compile :
      Outside
      → Text
      → TargetState
      → WorkRequest
      → List Text
      → Worker
      → Worker × Result Failure WorkResponse
  try_compile outside output target request args w =
      elim (with_arguments digests.utf8 args request) [
        | err e ↦ (start, err (codec_failed e))
        | ok sent ↦ elim (compile outside sent) [
          | err e ↦ (start, err e)
          | ok response ↦
              if response.exit_code == 0
              then (if outside.packs
                  then (record w { running = true }, ok response)
                  else (start, err pack_failed))
              else (
                record {
                  states = forget output w.states;
                  roots = remove_root target.root w.roots;
                  running = true;
                },
                ok response,
              )
        ]
      ]

  unfoldable pub handle : Outside → WorkRequest → Worker → Worker × Result Failure WorkResponse
  handle outside request w = elim (positions request.arguments) [
    | err e ↦ (w, err e)
    | ok (separator, destination, written) ↦
        let output = absolute written in
        let (w', target) = target_for output request w in
        try_compile outside output target request
          (compiler_arguments separator destination target request.arguments) w'
  ]

  -- A sequence of calls, from the first.
  unfoldable pub run : List (Outside × WorkRequest) → Worker → Worker
  run [] w = w
  run ((outside, request) ∷ calls) w = run calls (handle outside request w).0

  -- A round of the loop of `main`, where `describe` is `failure.toString()`.
  unfoldable pub respond :
      (Failure → Text) → Outside → WorkRequest → Worker → Worker × Result CodecError WorkResponse
  respond describe outside request w =
      let (after, result) = handle outside request w in
      (
        after,
        elim result [
          | ok response ↦ ok response
          | err failure ↦ error_response digests.utf8 request.request_id (describe failure)
        ],
      )
