-- ===== src/Worker/Signature/Classpath/Behind.antt =====
-- elide/private/ic_worker/IncrementalWorker.java: the arguments behind `--`, in `signature`.
use rules_elide.Prelude.{
  ℕ, suc, ◌+◌, ◌≡◌, ◌≢◌, ◌⊎◌, ◌↔◌, ◌∙◌, refl, ap, sym, subst, List, [], ◌∷◌, ◌++◌, none, some, drop,
  arith, All, Bool-cases, Option-cases, inl, inr, length,
}
use rules_elide.Prelude.Text.{Text, codes, text_eq, text_eq_iff}
use rules_elide.Worker.Signature.{index_of}

-- The arguments behind the first `--`, or all where there is none.
abbrev pub IsBehind : List Text → List Text → Type 0
IsBehind arguments rest =
    (All (λ a. a ≢ codes "--") arguments × (rest ≡ arguments))
    ⊎ ((before : List Text) × All (λ a. a ≢ codes "--") before
        × (arguments ≡ before ++ codes "--" ∷ rest))

-- The arguments that the loop goes through.
unfoldable pub tail_of : List Text → List Text
tail_of args = elim (index_of (codes "--") args) [ none ↦ args | some i ↦ drop (i + 1) args ]

index_of-none :
    (word : Text) (args : List Text) → (index_of word args ≡ none) ↔ All (λ a. a ≢ word) args
unfolding index_of
index_of-none word [] = ground arith
index_of-none word (a ∷ args) = elim (Option-cases (index_of word args)) [
  | inl k ↦ ground (arith, k, text_eq_iff a word, index_of-none word args)
  | inr (i, k) ↦ ground (arith, k, text_eq_iff a word, index_of-none word args)
]

index_suc : (i j : ℕ) → j + 1 ≡ i → i + 1 ≡ suc (j + 1)
index_suc i j e = omega (arith, e)

index_of-some :
    (word : Text) (args : List Text) {i : ℕ}
    → index_of word args ≡ some i
    → (before : List Text) × All (λ a. a ≢ word) before
      × (args ≡ before ++ word ∷ drop (i + 1) args)
unfolding index_of
index_of-some word [] e = cc
index_of-some word (a ∷ args) {i} e = elim (Bool-cases (text_eq a word)) [
  | inl same ↦
      let zero_is : 0 ≡ i = ground (arith, same, e) in
      (
        [],
        tt,
        subst (λ j. a ∷ args ≡ word ∷ drop (j + 1) (a ∷ args)) zero_is
            (ap (λ w. w ∷ args) ((text_eq_iff a word).0 same)),
      )
  | inr other ↦ elim (Option-cases (index_of word args)) [
    | inl k ↦ absurd (ground (arith, other, k, e))
    | inr (j, k) ↦
        let (before, free, parts) = index_of-some word args k in
        let next : j + 1 ≡ i = ground (arith, other, k, e) in
        (
          a ∷ before,
          (ground (arith, other, text_eq_iff a word), free),
          ap (λ s. a ∷ s)
              (parts ∙ sym (ap (λ n. before ++ word ∷ drop n (a ∷ args)) (index_suc i j next))),
        )
  ]
]

index_of-behind :
    (word : Text) (before rest : List Text)
    → All (λ a. a ≢ word) before
    → index_of word (before ++ word ∷ rest) ≡ some (length before)
unfolding index_of
index_of-behind word [] rest free = ground (arith, text_eq_iff word word)
index_of-behind word (a ∷ before) rest (off, free) =
    ground (arith, off, text_eq_iff a word, index_of-behind word before rest free)

drop-suc {ℓ} :
    {A : Type ℓ} (before rest : List A) (x : A)
    → drop (suc (length before)) (before ++ x ∷ rest) ≡ rest
drop-suc [] rest x = refl
drop-suc (y ∷ before) rest x = drop-suc before rest x

drop-behind :
    (before rest : List Text) (x : Text) → drop (length before + 1) (before ++ x ∷ rest) ≡ rest
drop-behind before rest x =
    let n : length before + 1 ≡ suc (length before) = omega arith in
    ap (λ n. drop n (before ++ x ∷ rest)) n ∙ drop-suc before rest x

pub tail_of-IsBehind : (args : List Text) → IsBehind args (tail_of args)
unfolding tail_of
tail_of-IsBehind args = elim (Option-cases (index_of (codes "--") args)) [
  | inl k ↦ inl (
    (index_of-none (codes "--") args).0 k,
    ap (λ o. elim o [ none ↦ args | some i ↦ drop (i + 1) args ]) k,
  )
  | inr (i, k) ↦ inr (
      subst
        (λ o.
          (before : List Text) × All (λ a. a ≢ codes "--") before
          × (args ≡ before ++ codes "--" ∷ elim o [ none ↦ args | some i ↦ drop (i + 1) args ]))
        (sym k) (index_of-some (codes "--") args k))
]

pub IsBehind-tail_of : (args rest : List Text) → IsBehind args rest → rest ≡ tail_of args
unfolding tail_of
IsBehind-tail_of args rest (inl (free, same)) =
    same
    ∙ sym (
        ap (λ o. elim o [ none ↦ args | some i ↦ drop (i + 1) args ])
          ((index_of-none (codes "--") args).1 free))
IsBehind-tail_of args rest (inr (before, free, parts)) =
    let at = ap (index_of (codes "--")) parts ∙ index_of-behind (codes "--") before rest free in
    sym (
      ap (λ o. elim o [ none ↦ args | some i ↦ drop (i + 1) args ]) at
      ∙ ap (drop (length before + 1)) parts
      ∙ drop-behind before rest (codes "--"))
