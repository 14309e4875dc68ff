-- ===== src/Bench/Profile.antt =====
-- benchmarks/incremental_matrix.py: `profile_summary`, the memory counters of a Bazel trace. Its
-- numbers are a parameter with their order; the seconds on the critical path are not modelled.
pub mod Peak
pub mod Series
pub mod Counters
mod Tests
use rules_elide.Prelude.{
  Bool, true, false, List, [], ◌∷◌, ◌++◌, Option, none, some, Result, ok, err, ◌>>=◌, ◌&&◌,
  if◌then◌else◌,
}
use rules_elide.Prelude.Text.{Text, codes, text_eq, pair_eq}
use rules_elide.Prelude.Dict.{Dict, lookup, insert}

-- A JSON value: an `int` or `float`, or another value, Booleans among them.
pub data Value (N : Type 0) : Type 0 where
  number : N → Value N
  no_number : Value N

-- What is read of an event; none is a missing key, and `args` are the items.
pub record Event (N : Type 0) : Type 0 where
  pub ph : Option Text
  pub name : Option Text
  pub ts : Option N
  pub args : Dict (Value N)

-- The `KeyError` of a counter event.
pub data TraceError : Type 0 where
  missing : Text → TraceError

-- The samples by name and key, as the items of the dict.
abbrev pub Series : Type 0 → Type 0
Series N = List ((Text × Text) × List (N × N))

-- The last three entries of the summary.
pub record Memory (N : Type 0) : Type 0 where
  pub worker_memory : Option N
  pub bazel_memory : Option N
  pub by_mnemonic : Dict N

unfoldable pub is_counter : Option Text → Bool
is_counter none = false
is_counter (some ph) = text_eq ph (codes "C")

abbrev pub or_empty {ℓ} : {V : Type ℓ} → Option (Dict V) → Dict V
or_empty none = []
or_empty (some d) = d

module _ {N : Type 0} where
  -- `series.setdefault(k, []).append(sample)`
  unfoldable pub add_sample : Text × Text → N × N → Series N → Series N
  add_sample k sample [] = (k, sample ∷ []) ∷ []
  add_sample k sample ((j, samples) ∷ series) =
      let more = add_sample k sample series in
      if pair_eq j k then (j, samples ++ sample ∷ []) ∷ series else (j, samples) ∷ more

  -- The loop over `event.get("args", {}).items()`.
  unfoldable pub add_args :
      Option Text → Option N → Dict (Value N) → Series N → Result TraceError (Series N)
  add_args name ts [] series = ok series
  add_args name ts ((key, no_number) ∷ args) series = add_args name ts args series
  add_args none ts ((key, number value) ∷ args) series = err (missing (codes "name"))
  add_args (some name) none ((key, number value) ∷ args) series = err (missing (codes "ts"))
  add_args (some name) (some t) ((key, number value) ∷ args) series =
      add_args (some name) (some t) args (add_sample (name, key) (t, value) series)

  -- The loop over `events`.
  unfoldable pub add_events : List (Event N) → Series N → Result TraceError (Series N)
  add_events [] series = ok series
  add_events (event ∷ events) series = elim (is_counter event.ph) [
    | true ↦ add_args event.name event.ts event.args series >>= λ more. add_events events more
    | false ↦ add_events events series
  ]

  -- `counters.setdefault(name, {})[key] = value`
  unfoldable pub set_counter : Text → Text → N → Dict (Dict N) → Dict (Dict N)
  set_counter name key value counters =
      insert name (insert key value (or_empty (lookup name counters))) counters

  -- `counters.get(name, {}).get(key)`
  unfoldable pub get_counter : Text → Text → Dict (Dict N) → Option N
  get_counter name key counters = lookup key (or_empty (lookup name counters))

module _ {N : Type 0} (nought : N) (lt : N → N → Bool) where
  -- `max` of one number or more.
  unfoldable pub max_of : N → List N → N
  max_of n [] = n
  max_of n (m ∷ ms) = max_of (if lt n m then m else n) ms

  -- `[timestamp for timestamp, value in samples if value > 0]`
  unfoldable pub positive_times : List (N × N) → List N
  positive_times [] = []
  positive_times ((t, value) ∷ samples) =
      let more = positive_times samples in if lt nought value then t ∷ more else more

  -- `[value for timestamp, value in samples if timestamp < end]`
  unfoldable pub values_before : N → List (N × N) → List N
  values_before end [] = []
  values_before end ((t, value) ∷ samples) =
      let more = values_before end samples in if lt t end then value ∷ more else more

  -- `complete`
  unfoldable pub complete : List (N × N) → List N
  complete samples = elim (positive_times samples) [
    | [] ↦ []
    | t ∷ ts ↦ values_before (max_of t ts) samples
  ]

  -- `max(complete)`, if there is one.
  unfoldable pub peak : List (N × N) → Option N
  peak samples = elim (complete samples) [ [] ↦ none | v ∷ vs ↦ some (max_of v vs) ]

  -- The loop over `series.items()`.
  unfoldable pub counters_of : Series N → Dict (Dict N) → Dict (Dict N)
  counters_of [] counters = counters
  counters_of (((name, key), samples) ∷ series) counters =
      counters_of series
        (elim (peak samples) [ none ↦ counters | some v ↦ set_counter name key v counters ])

  unfoldable pub trace_counters : List (Event N) → Result TraceError (Dict (Dict N))
  trace_counters events = add_events events [] >>= λ series. ok (counters_of series [])

  unfoldable pub memory_summary : List (Event N) → Result TraceError (Memory N)
  memory_summary events = trace_counters events >>= λ counters. ok (record {
    worker_memory =
        get_counter (codes "Total worker memory usage") (codes "workers memory") counters;
    bazel_memory = get_counter (codes "Memory usage (Bazel)") (codes "memory") counters;
    by_mnemonic = or_empty (lookup (codes "Per-mnemonic worker memory usage") counters);
  })
