-- ===== src/Bench/Profile/Counters.antt =====
-- benchmarks/incremental_matrix.py: the counters that `profile_summary` reports.
use rules_elide.Prelude.{
  ◌≡◌, refl, sym, ap, ◌∙◌, inl, inr, Bool, true, false, List, [], ◌∷◌, Option, none, some, All, ok,
  Bool-cases, if◌then◌else◌,
}
use rules_elide.Prelude.Text.{Text, codes, text_eq, text_eq_iff, pair_eq, pair_eq_iff}
use rules_elide.Prelude.Dict.{Dict, lookup, insert, lookup-insert, or_else}
use rules_elide.Bench.Profile.{
  Event, Series, or_empty, set_counter, get_counter, peak, complete, positive_times, counters_of,
  trace_counters, Memory, memory_summary,
}
use rules_elide.Bench.Profile.Series.{
  samples_of, IsTimed, has_key, get_samples, get_samples-none, NodupSeries, add_events-Gathers,
}

module _ {N : Type 0} where
  get_counter-set_counter :
      (name key name' key' : Text) (v : N) (d : Dict (Dict N))
      → get_counter name key (set_counter name' key' v d)
        ≡ (if pair_eq (name', key') (name, key) then some v else get_counter name key d)
  unfolding get_counter set_counter pair_eq
  get_counter-set_counter name key name' key' v d = elim (Bool-cases (text_eq name' name)) [
    | inl h ↦
        rw (lookup-insert name' name (insert key' v (or_empty (lookup name' d))) d, h)
          (lookup-insert key' key v (or_empty (lookup name' d))
            ∙ ap (λ n. if text_eq key' key then some v else lookup key (or_empty (lookup n d)))
                ((text_eq_iff name' name).0 h))
    | inr h ↦ rw (lookup-insert name' name (insert key' v (or_empty (lookup name' d))) d, h) refl
  ]

  get_counter-set :
      (name key name' key' : Text) (o : Option N) (d : Dict (Dict N))
      → get_counter name key (elim o [ none ↦ d | some v ↦ set_counter name' key' v d ]) ≡ (
          if pair_eq (name', key') (name, key)
          then or_else o (get_counter name key d)
          else get_counter name key d)
  get_counter-set name key name' key' none d =
      both (pair_eq (name', key') (name, key)) (get_counter name key d)
    where
      both : (b : Bool) (o : Option N) → o ≡ (if b then o else o)
      both true o = refl
      both false o = refl
  get_counter-set name key name' key' (some v) d = get_counter-set_counter name key name' key' v d

  module _ (nought : N) (lt : N → N → Bool) where
    peak-nil : peak nought lt [] ≡ none
    unfolding peak complete positive_times
    peak-nil = refl

    get_counter-counters_of :
        (name key : Text) (series : Series N) (d : Dict (Dict N))
        → NodupSeries series
        → get_counter name key (counters_of nought lt series d)
          ≡ or_else (peak nought lt (get_samples (name, key) series)) (get_counter name key d)
    unfolding counters_of NodupSeries get_samples
    get_counter-counters_of name key [] d h =
        ap (λ o. or_else o (get_counter name key d)) (sym peak-nil)
    get_counter-counters_of name key (((name', key'), samples) ∷ series) d (h, hs) =
        let next : Dict (Dict N) = elim (peak nought lt samples) [
          | none ↦ d
          | some v ↦ set_counter name' key' v d
        ] in
        let rest = get_counter-counters_of name key series next hs in
        let set = get_counter-set name key name' key' (peak nought lt samples) d in
        elim (Bool-cases (pair_eq (name', key') (name, key))) [
          | inl l ↦
              let gone =
                get_samples-none (name, key) series
                  (ap (λ k. has_key k series) (sym ((pair_eq_iff (name', key') (name, key)).0 l))
                    ∙ h) in
              rw l (
                rest
                ∙ ap (λ s. or_else (peak nought lt s) (get_counter name key next)) gone
                ∙ ap (λ o. or_else o (get_counter name key next)) peak-nil
                ∙ rw l at set)
          | inr l ↦ rw l (
              rest
              ∙ ap (λ o. or_else (peak nought lt (get_samples (name, key) series)) o) (rw l at set))
        ]

    trace_counters-peak :
        (events : List (Event N))
        → All IsTimed events
        → (d : Dict (Dict N)) × (trace_counters nought lt events ≡ ok d)
          × ((name key : Text)
              → get_counter name key d ≡ peak nought lt (samples_of (name, key) events))
    unfolding trace_counters get_samples get_counter lookup
    trace_counters-peak events timed =
        let (series, e, (nodup, found)) =
          add_events-Gathers events [] timed (unfold NodupSeries in tt) in
        (
          counters_of nought lt series [],
          rw e refl,
          λ name key.
              get_counter-counters_of name key series [] nodup
              ∙ no_more (peak nought lt (get_samples (name, key) series))
              ∙ ap (peak nought lt) (found (name, key)),
        )
      where
        no_more : (o : Option N) → or_else o none ≡ o
        no_more none = refl
        no_more (some v) = refl

    -- Where each counter event has a name and a time, the summary is made, and each of its counters
    -- is what `peak` gives for the samples of that counter in the trace.
    pub memory_summary-peak :
        (events : List (Event N))
        → All IsTimed events
        → (m : Memory N) × (memory_summary nought lt events ≡ ok m)
          × (m.worker_memory
              ≡ peak nought lt
                  (samples_of (codes "Total worker memory usage", codes "workers memory") events))
          × (m.bazel_memory
              ≡ peak nought lt (samples_of (codes "Memory usage (Bazel)", codes "memory") events))
          × ((key : Text)
              → lookup key m.by_mnemonic
                ≡ peak nought lt
                    (samples_of (codes "Per-mnemonic worker memory usage", key) events))
    unfolding memory_summary get_counter
    memory_summary-peak events timed =
        let (d, e, found) = trace_counters-peak events timed in
        (
          _,
          rw e refl,
          found (codes "Total worker memory usage") (codes "workers memory"),
          found (codes "Memory usage (Bazel)") (codes "memory"),
          found (codes "Per-mnemonic worker memory usage"),
        )
