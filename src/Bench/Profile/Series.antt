-- ===== src/Bench/Profile/Series.antt =====
-- benchmarks/incremental_matrix.py: the samples that `profile_summary` gathers from the events.
use rules_elide.Prelude.{
  ◌≡◌, refl, sym, ap, ◌∙◌, ◌⊎◌, inl, inr, Bool, true, false, ◌||◌, List, [], ◌∷◌, ◌++◌, append-nil,
  append_assoc, Option, none, some, All, ok, arith, Bool-cases, if◌then◌else◌,
}
use rules_elide.Prelude.Text.{Text, pair_eq, pair_eq_iff}
use rules_elide.Prelude.Dict.{Dict}
use rules_elide.Bench.Profile.{
  Value, number, no_number, Event, Series, is_counter, add_sample, add_args, add_events,
}

-- The samples of one counter in an event's arguments.
unfoldable pub args_samples : {N : Type 0} → Text × Text → Text → N → Dict (Value N) → List (N × N)
args_samples k name t [] = []
args_samples k name t ((key, no_number) ∷ args) = args_samples k name t args
args_samples k name t ((key, number v) ∷ args) =
    let more = args_samples k name t args in if pair_eq (name, key) k then (t, v) ∷ more else more

abbrev pub samples_in :
    {N : Type 0} → Text × Text → Bool → Option Text → Option N → Dict (Value N) → List (N × N)
samples_in k false name ts args = []
samples_in k true none ts args = []
samples_in k true (some name) none args = []
samples_in k true (some name) (some t) args = args_samples k name t args

abbrev pub event_samples : {N : Type 0} → Text × Text → Event N → List (N × N)
event_samples k event = samples_in k (is_counter event.ph) event.name event.ts event.args

-- The samples of one counter in a trace: its numbers with their times, in the order of the events.
abbrev pub samples_of : {N : Type 0} → Text × Text → List (Event N) → List (N × N)
samples_of k [] = []
samples_of k (event ∷ events) = event_samples k event ++ samples_of k events

-- A counter event has a name and a time.
abbrev pub IsTimed : {N : Type 0} → Event N → Type 0
IsTimed {N = N} event =
    (is_counter event.ph ≡ false)
    ⊎ ((name : Text) × (t : N) × (event.name ≡ some name) × (event.ts ≡ some t))

module _ {N : Type 0} where
  unfoldable pub has_key : Text × Text → Series N → Bool
  has_key k [] = false
  has_key k ((j, samples) ∷ series) = pair_eq j k || has_key k series

  unfoldable pub get_samples : Text × Text → Series N → List (N × N)
  get_samples k [] = []
  get_samples k ((j, samples) ∷ series) = if pair_eq j k then samples else get_samples k series

  unfoldable pub NodupSeries : Series N → Type 0
  NodupSeries [] = Unit
  NodupSeries ((j, samples) ∷ series) = (has_key j series ≡ false) × NodupSeries series

  has_key-add_sample :
      (j k : Text × Text) (x : N × N) (series : Series N)
      → has_key k (add_sample j x series) ≡ (pair_eq j k || has_key k series)
  unfolding has_key add_sample
  has_key-add_sample j k x [] = refl
  has_key-add_sample j k x ((i, samples) ∷ series) =
      ground
        (arith, pair_eq_iff i j, pair_eq_iff j k, pair_eq_iff i k, has_key-add_sample j k x series)

  add_sample-NodupSeries :
      (j : Text × Text) (x : N × N) (series : Series N)
      → NodupSeries series
      → NodupSeries (add_sample j x series)
  unfolding has_key add_sample NodupSeries
  add_sample-NodupSeries j x [] h = (refl, tt)
  add_sample-NodupSeries j x ((i, samples) ∷ series) (h, hs) = ground (
    arith,
    has_key-add_sample j i x series,
    add_sample-NodupSeries j x series hs,
    pair_eq_iff i j,
    pair_eq_iff j i,
  )

  get_samples-add_sample :
      (j k : Text × Text) (x : N × N) (series : Series N)
      → get_samples k (add_sample j x series)
        ≡ get_samples k series ++ (if pair_eq j k then x ∷ [] else [])
  unfolding get_samples add_sample
  get_samples-add_sample j k x [] = ground arith
  get_samples-add_sample j k x ((i, samples) ∷ series) = elim (Bool-cases (pair_eq i j)) [
    | inl h ↦
        let same = ap (λ u. pair_eq u k) ((pair_eq_iff i j).0 h) in
        elim (Bool-cases (pair_eq i k)) [
          | inl l ↦ rw (h, get_samples, l, sym same ∙ l) refl
          | inr l ↦ rw (h, get_samples, l, sym same ∙ l) (sym (append-nil (get_samples k series)))
        ]
    | inr h ↦ elim (Bool-cases (pair_eq i k)) [
      | inr l ↦ rw (h, get_samples, l) (get_samples-add_sample j k x series)
      | inl l ↦
          let other : pair_eq j k ≡ false =
            ground (arith, pair_eq_iff i j, pair_eq_iff j k, pair_eq_iff i k) in
          rw (h, get_samples, l, other) (sym (append-nil samples))
    ]
  ]

  pub get_samples-none :
      (k : Text × Text) (series : Series N) → has_key k series ≡ false → get_samples k series ≡ []
  unfolding get_samples has_key
  get_samples-none k [] h = refl
  get_samples-none k ((j, samples) ∷ series) h = ground (arith, get_samples-none k series)

  -- The series with more samples of some counters.
  abbrev pub Gathers : Series N → Series N → (Text × Text → List (N × N)) → Type 0
  Gathers before after more =
      NodupSeries after × ((k : Text × Text) → get_samples k after ≡ get_samples k before ++ more k)

  add_args-Gathers :
      (name : Text) (t : N) (args : Dict (Value N)) (series : Series N)
      → NodupSeries series
      → (after : Series N) × (add_args (some name) (some t) args series ≡ ok after)
        × Gathers series after (λ k. args_samples k name t args)
  unfolding add_args args_samples
  add_args-Gathers name t [] series h =
      (series, refl, (h, λ k. sym (append-nil (get_samples k series))))
  add_args-Gathers name t ((key, no_number) ∷ args) series h = add_args-Gathers name t args series h
  add_args-Gathers name t ((key, number v) ∷ args) series h =
      let (after, e, (nodup, found)) =
        add_args-Gathers name t args (add_sample (name, key) (t, v) series)
          (add_sample-NodupSeries (name, key) (t, v) series h) in
      (
        after,
        e,
        (
          nodup,
          λ k.
              found k
              ∙ ap (λ s. s ++ args_samples k name t args)
                  (get_samples-add_sample (name, key) k (t, v) series)
              ∙ append_assoc (get_samples k series)
                  (if pair_eq (name, key) k then (t, v) ∷ [] else []) (args_samples k name t args)
              ∙ ap (λ s. get_samples k series ++ s)
                  (one_more (pair_eq (name, key) k) (args_samples k name t args)),
        ),
      )
    where
      one_more :
          (b : Bool) (more : List (N × N))
          → (if b then (t, v) ∷ [] else []) ++ more ≡ (if b then (t, v) ∷ more else more)
      one_more true more = refl
      one_more false more = refl

  event_samples-other :
      (k : Text × Text) (event : Event N) → is_counter event.ph ≡ false → event_samples k event ≡ []
  event_samples-other k event h = ap (λ b. samples_in k b event.name event.ts event.args) h

  event_samples-counts :
      (k : Text × Text) (event : Event N) {name : Text} {t : N}
      → is_counter event.ph ≡ true
      → event.name ≡ some name
      → event.ts ≡ some t
      → event_samples k event ≡ args_samples k name t event.args
  event_samples-counts k event {name = name} h named at =
      ap (λ b. samples_in k b event.name event.ts event.args) h
      ∙ ap (λ n. samples_in k true n event.ts event.args) named
      ∙ ap (λ t. samples_in k true (some name) t event.args) at

  pub add_events-Gathers :
      (events : List (Event N)) (series : Series N)
      → All IsTimed events
      → NodupSeries series
      → (after : Series N) × (add_events events series ≡ ok after)
        × Gathers series after (λ k. samples_of k events)
  unfolding add_events
  add_events-Gathers [] series timed h =
      (series, refl, (h, λ k. sym (append-nil (get_samples k series))))
  add_events-Gathers (event ∷ events) series (inl other, timed) h =
      let (after, e, (nodup, found)) = add_events-Gathers events series timed h in
      (
        after,
        rw (other, add_events) e,
        (
          nodup,
          λ k.
              found k
              ∙ ap (λ s. get_samples k series ++ (s ++ samples_of k events))
                  (sym (event_samples-other k event other)),
        ),
      )
  add_events-Gathers (event ∷ events) series (inr (name, t, named, at), timed) h =
      elim (Bool-cases (is_counter event.ph)) [
        | inr other ↦
            let (after, e, (nodup, found)) = add_events-Gathers events series timed h in
            (
              after,
              rw (other, add_events) e,
              (
                nodup,
                λ k.
                    found k
                    ∙ ap (λ s. get_samples k series ++ (s ++ samples_of k events))
                        (sym (event_samples-other k event other)),
              ),
            )
        | inl counts ↦
            let (next, e, (nodup, found)) = add_args-Gathers name t event.args series h in
            let (after, e', (nodup', found')) = add_events-Gathers events next timed nodup in
            (
              after,
              rw (counts, named, at, add_events, e) e',
              (
                nodup',
                λ k.
                    found' k
                    ∙ ap (λ s. s ++ samples_of k events)
                        (found k
                          ∙ ap (λ s. get_samples k series ++ s)
                              (sym (event_samples-counts k event counts named at)))
                    ∙ append_assoc (get_samples k series) (event_samples k event)
                        (samples_of k events),
              ),
            )
      ]
