-- ===== src/Bench/Profile/Peak.antt =====
-- benchmarks/incremental_matrix.py: which sample `profile_summary` reports of a counter.
use rules_elide.Prelude.{
  ℕ, zero, suc, ◌≡◌, refl, ap, ◌∙◌, ◌⊎◌, inl, inr, Bool, true, false, List, [], ◌∷◌, none, some,
  get_elem?, arith, Bool-cases, List-cases, some_injective,
}
use rules_elide.Bench.Profile.{max_of, positive_times, values_before, complete, peak}

-- Some place of the list has the element.
abbrev pub At {ℓ} : {A : Type ℓ} → List A → A → Type ℓ
At xs x = (i : ℕ) × (get_elem? xs i ≡ some x)

at_head {ℓ} : {A : Type ℓ} (x : A) (xs : List A) → At (x ∷ xs) x
at_head x xs = (0, refl)

behind {ℓ} : {A : Type ℓ} (y : A) (xs : List A) {x : A} → At xs x → At (y ∷ xs) x
behind y xs (i, e) = (suc i, e)

At-cons {ℓ} : {A : Type ℓ} (y : A) (xs : List A) {x : A} → At (y ∷ xs) x → (y ≡ x) ⊎ At xs x
At-cons y xs (zero, e) = inl (some_injective e)
At-cons y xs (suc i, e) = inr (i, e)

-- An element of a list with one more behind its head.
skip {ℓ} : {A : Type ℓ} (z y : A) (xs : List A) {x : A} → At (z ∷ xs) x → At (z ∷ y ∷ xs) x
skip z y xs (zero, e) = (0, e)
skip z y xs (suc i, e) = (suc (suc i), e)

-- A later sample is positive.
abbrev pub IsComplete : {N : Type 0} → N → (N → N → Bool) → List (N × N) → N × N → Type 0
IsComplete {N = N} nought lt samples s =
    (p : N × N) × At samples p × (lt nought p.1 ≡ true) × (lt s.0 p.0 ≡ true)

module _ {N : Type 0} (nought : N) (lt : N → N → Bool) (lt_irrefl : (n : N) → lt n n ≡ false)
    (lt_trans : (n m k : N) → lt n m ≡ true → lt m k ≡ true → lt n k ≡ true)
    (lt_connected : (n m : N) → lt n m ≡ false → lt m n ≡ false → n ≡ m) where
  NotBelow-trans : (n m k : N) → lt n m ≡ false → lt m k ≡ false → lt n k ≡ false
  NotBelow-trans n m k h i = ground (arith, lt_trans m n k, lt_connected n m h)

  max_of-At : (n : N) (ns : List N) → At (n ∷ ns) (max_of nought lt n ns)
  unfolding max_of
  max_of-At n [] = at_head n []
  max_of-At n (m ∷ ms) = elim (Bool-cases (lt n m)) [
    | inl h ↦ rw h (behind n (m ∷ ms) (max_of-At m ms))
    | inr h ↦ rw h (skip n m ms (max_of-At n ms))
  ]

  max_of-first : (n : N) (ns : List N) → lt (max_of nought lt n ns) n ≡ false
  unfolding max_of
  max_of-first n [] = lt_irrefl n
  max_of-first n (m ∷ ms) = elim (Bool-cases (lt n m)) [
    | inr h ↦ rw h (max_of-first n ms)
    | inl h ↦ rw h (
        NotBelow-trans (max_of nought lt m ms) m n (max_of-first m ms)
          (ground (arith, lt_trans n m n h, lt_irrefl n)))
  ]

  max_of-greatest :
      (n : N) (ns : List N) (m : N) → At (n ∷ ns) m → lt (max_of nought lt n ns) m ≡ false
  unfolding max_of
  max_of-greatest n [] m at = elim (At-cons n [] at) [
    | inl same ↦ rw⁻¹ same (lt_irrefl n)
    | inr at ↦ cc (at.1)
  ]
  max_of-greatest n (k ∷ ns) m at = elim (Bool-cases (lt n k)) [
    | inl h ↦ rw h (elim (At-cons n (k ∷ ns) at) [
      | inl same ↦ rw⁻¹ same (
          NotBelow-trans (max_of nought lt k ns) k n (max_of-first k ns)
            (ground (arith, lt_trans n k n h, lt_irrefl n)))
      | inr at ↦ max_of-greatest k ns m at
    ])
    | inr h ↦ rw h (elim (At-cons n (k ∷ ns) at) [
      | inl same ↦ rw⁻¹ same (max_of-first n ns)
      | inr at ↦ elim (At-cons k ns at) [
        | inl same ↦ rw⁻¹ same (NotBelow-trans (max_of nought lt n ns) n k (max_of-first n ns) h)
        | inr at ↦ max_of-greatest n ns m (behind n ns at)
      ]
    ])
  ]

  positive_times-At :
      (samples : List (N × N)) (t : N)
      → At (positive_times nought lt samples) t
      → (v : N) × At samples (t, v) × (lt nought v ≡ true)
  unfolding positive_times
  positive_times-At [] t at = cc (at.1)
  positive_times-At ((u, w) ∷ samples) t at = elim (Bool-cases (lt nought w)) [
    | inr h ↦
        let (v, found, positive) = positive_times-At samples t (rw (h, positive_times) at at) in
        (v, behind (u, w) samples found, positive)
    | inl h ↦ elim (At-cons u (positive_times nought lt samples) (rw (h, positive_times) at at)) [
      | inl same ↦ (w, (0, ap (λ x. some (x, w)) same), h)
      | inr at ↦
          let (v, found, positive) = positive_times-At samples t at in
          (v, behind (u, w) samples found, positive)
    ]
  ]

  At-positive_times :
      (samples : List (N × N)) (t v : N)
      → At samples (t, v)
      → lt nought v ≡ true
      → At (positive_times nought lt samples) t
  unfolding positive_times
  At-positive_times [] t v at positive = cc (at.1)
  At-positive_times ((u, w) ∷ samples) t v (zero, e) positive =
      let same = some_injective e in
      rw (ap (λ (x : N × N). lt nought x.1) same ∙ positive, positive_times)
        (0, ap (λ (x : N × N). some x.0) same)
  At-positive_times ((u, w) ∷ samples) t v (suc i, e) positive =
      let more = At-positive_times samples t v (i, e) positive in
      elim (Bool-cases (lt nought w)) [
        | inl h ↦ rw (h, positive_times) (behind u (positive_times nought lt samples) more)
        | inr h ↦ rw (h, positive_times) more
      ]

  values_before-At :
      (end : N) (samples : List (N × N)) (v : N)
      → At (values_before nought lt end samples) v
      → (t : N) × At samples (t, v) × (lt t end ≡ true)
  unfolding values_before
  values_before-At end [] v at = cc (at.1)
  values_before-At end ((u, w) ∷ samples) v at = elim (Bool-cases (lt u end)) [
    | inr h ↦
        let (t, found, before) = values_before-At end samples v (rw (h, values_before) at at) in
        (t, behind (u, w) samples found, before)
    | inl h ↦ elim (At-cons w (values_before nought lt end samples) (rw (h, values_before) at at)) [
      | inl same ↦ (u, (0, ap (λ x. some (u, x)) same), h)
      | inr at ↦
          let (t, found, before) = values_before-At end samples v at in
          (t, behind (u, w) samples found, before)
    ]
  ]

  At-values_before :
      (end : N) (samples : List (N × N)) (t v : N)
      → At samples (t, v)
      → lt t end ≡ true
      → At (values_before nought lt end samples) v
  unfolding values_before
  At-values_before end [] t v at before = cc (at.1)
  At-values_before end ((u, w) ∷ samples) t v (zero, e) before =
      let same = some_injective e in
      rw (ap (λ (x : N × N). lt x.0 end) same ∙ before, values_before)
        (0, ap (λ (x : N × N). some x.1) same)
  At-values_before end ((u, w) ∷ samples) t v (suc i, e) before =
      let more = At-values_before end samples t v (i, e) before in
      elim (Bool-cases (lt u end)) [
        | inl h ↦ rw (h, values_before) (behind w (values_before nought lt end samples) more)
        | inr h ↦ rw (h, values_before) more
      ]

  below_max : (n m k : N) → lt n m ≡ true → lt k m ≡ false → lt n k ≡ true
  below_max n m k h i = ground (arith, lt_trans n m k h, lt_connected m k)

  -- The samples before the last positive one are the complete ones.
  complete-At :
      (samples : List (N × N)) (v : N)
      → At (complete nought lt samples) v
      → (t : N) × At samples (t, v) × IsComplete nought lt samples (t, v)
  unfolding complete
  complete-At samples v at = elim (List-cases (positive_times nought lt samples)) [
    | inl h ↦ cc ((rw (h, complete) at at).1)
    | inr (t, ts, h) ↦
        let (u, found, before) =
          values_before-At (max_of nought lt t ts) samples v (rw (h, complete) at at) in
        let (w, last, positive) =
          positive_times-At samples (max_of nought lt t ts) (rw h (max_of-At t ts)) in
        (u, found, ((max_of nought lt t ts, w), last, positive, before))
  ]

  At-complete :
      (samples : List (N × N)) (s : N × N)
      → At samples s
      → IsComplete nought lt samples s
      → At (complete nought lt samples) s.1
  unfolding complete
  At-complete samples (t, v) at ((u, w), later, positive, before) =
      let last = At-positive_times samples u w later positive in
      elim (List-cases (positive_times nought lt samples)) [
        | inl h ↦ cc ((rw h at last).1)
        | inr (x, xs, h) ↦
            rw (h, complete)
              (At-values_before (max_of nought lt x xs) samples t v at (
                below_max t u (max_of nought lt x xs) before
                  (max_of-greatest x xs u (rw h at last))))
      ]

  -- A counter is reported with the value of a complete sample, a sample before a positive one, that
  -- no complete sample exceeds; it is missing just where no sample is complete.
  peak-greatest :
      (samples : List (N × N))
      → ((peak nought lt samples ≡ none)
          × ((s : N × N) → At samples s → ¬ IsComplete nought lt samples s))
        ⊎ ((s : N × N) × (peak nought lt samples ≡ some s.1)
            × At samples s
            × IsComplete nought lt samples s
            × ((u : N × N) → At samples u → IsComplete nought lt samples u → lt s.1 u.1 ≡ false))
  unfolding peak
  peak-greatest samples = elim (List-cases (complete nought lt samples)) [
    | inl h ↦ inl (rw (h, peak) refl, λ s at c. cc ((rw h at (At-complete samples s at c)).1))
    | inr (v, vs, h) ↦
        let (t, found, before) =
          complete-At samples (max_of nought lt v vs) (rw h (max_of-At v vs)) in
        inr (
          (t, max_of nought lt v vs),
          rw (h, peak) refl,
          found,
          before,
          λ u at c. max_of-greatest v vs u.1 (rw h at (At-complete samples u at c)),
        )
  ]
