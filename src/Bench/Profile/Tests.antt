-- ===== src/Bench/Profile/Tests.antt =====
-- A small trace for benchmarks/incremental_matrix.py.
use rules_elide.Prelude.{ℕ, ◌≡◌, refl, inl, inr, List, [], ◌∷◌, some, none, All, ok, err, ltb}
use rules_elide.Prelude.Text.{Text, codes, text_eq, pair_eq}
use rules_elide.Prelude.Dict.{lookup, insert}
use rules_elide.Bench.Profile.{
  number, no_number, Event, TraceError, Memory, is_counter, add_sample, add_args, add_events,
  set_counter, get_counter, max_of, positive_times, values_before, complete, peak, counters_of,
  trace_counters, memory_summary,
}
use rules_elide.Bench.Profile.Series.{samples_of, IsTimed}
use rules_elide.Bench.Profile.Counters.{memory_summary-peak}

-- A trace in which the last bucket of the heap is partial, and that of the workers is idle.
abbrev heap_event : ℕ → ℕ → Event ℕ
heap_event t n = record {
  ph = some (codes "C");
  name = some (codes "Memory usage (Bazel)");
  ts = some t;
  args = (codes "memory", number n) ∷ [];
}

abbrev worker_event : ℕ → ℕ → Event ℕ
worker_event t n = record {
  ph = some (codes "C");
  name = some (codes "Total worker memory usage");
  ts = some t;
  args = (codes "workers memory", number n) ∷ (codes "note", no_number) ∷ [];
}

abbrev trace : List (Event ℕ)
trace =
    heap_event 1 300
    ∷ worker_event 1 70
    ∷ record { ph = none; name = none; ts = none; args = [] }
    ∷ heap_event 2 200
    ∷ worker_event 2 0
    ∷ heap_event 3 900
    ∷ []

complete_buckets :
    memory_summary 0 ltb trace
    ≡ ok (record { worker_memory = none; bazel_memory = some 300; by_mnemonic = [] })
unfolding memory_summary trace_counters add_events is_counter add_args add_sample counters_of peak
    complete positive_times values_before max_of set_counter get_counter lookup insert text_eq
    pair_eq
complete_buckets = refl

-- A counter event without a time.
untimed_refused :
    memory_summary 0 ltb (record (heap_event 1 300) { ts = none } ∷ trace)
    ≡ err (TraceError.missing (codes "ts"))
unfolding memory_summary trace_counters add_events is_counter add_args text_eq
untimed_refused = refl

trace-IsTimed : All IsTimed trace
unfolding is_counter text_eq
trace-IsTimed = (
  inr (_, _, refl, refl),
  (
    inr (_, _, refl, refl),
    (inl refl, (inr (_, _, refl, refl), (inr (_, _, refl, refl), (inr (_, _, refl, refl), tt)))),
  ),
)

memory_summary-peak_example :
    (m : Memory ℕ) × (memory_summary 0 ltb trace ≡ ok m)
    × (m.worker_memory
        ≡ peak 0 ltb (samples_of (codes "Total worker memory usage", codes "workers memory") trace))
    × (m.bazel_memory
        ≡ peak 0 ltb (samples_of (codes "Memory usage (Bazel)", codes "memory") trace))
    × ((key : Text)
        → lookup key m.by_mnemonic
          ≡ peak 0 ltb (samples_of (codes "Per-mnemonic worker memory usage", key) trace))
memory_summary-peak_example = memory_summary-peak 0 ltb trace trace-IsTimed
