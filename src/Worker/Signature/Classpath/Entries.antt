-- ===== src/Worker/Signature/Classpath/Entries.antt =====
-- elide/private/ic_worker/IncrementalWorker.java: `split` on the path separator, in `signature`.
use rules_elide.Prelude.{
  ℕ, ◌≡◌, ◌≢◌, ◌∙◌, ap, sym, subst, true, false, [], ◌∷◌, ◌++◌, append_assoc, append-nil, arith,
  All, Bool-cases, inl, inr, ◌==◌,
}
use rules_elide.Prelude.Text.{Text, text_eq, text_eq_iff, has_text}
use rules_elide.Worker.Signature.{split_path}

-- A part of the text between colons and its ends.
pub data IsEntry (entry : Text) : Text → Type 0 where
  whole : {path : Text} → All (λ c. c ≢ b':') entry → path ≡ entry → IsEntry entry path
  first :
      {path : Text} (rest : Text)
      → All (λ c. c ≢ b':') entry
      → path ≡ entry ++ b':' ∷ rest
      → IsEntry entry path
  later :
      {path : Text} (before rest : Text)
      → path ≡ before ++ b':' ∷ rest
      → IsEntry entry rest
      → IsEntry entry path

All-snoc : (P : ℕ → Type 0) (xs : Text) (x : ℕ) → All P xs → P x → All P (xs ++ x ∷ [])
All-snoc P [] x h k = (k, tt)
All-snoc P (y ∷ xs) x (h, hs) k = (h, All-snoc P xs x hs k)

-- The parts are entries of the text, with what was read of the first part.
pub split_path-IsEntry :
    (entry part s : Text)
    → All (λ c. c ≢ b':') part
    → has_text entry (split_path part s) ≡ true
    → IsEntry entry (part ++ s)
unfolding split_path has_text
split_path-IsEntry entry part [] free h =
    let same = (text_eq_iff part entry).0 (ground (arith, h)) in
    whole (subst (All (λ c. c ≢ b':')) same free) (append-nil part ∙ same)
split_path-IsEntry entry part (c ∷ s) free h = elim (Bool-cases (c == 58)) [
  | inl colon ↦
      let is_colon : c ≡ b':' = ground (arith, colon) in
      let split = ap (λ d. part ++ d ∷ s) is_colon in
      elim (Bool-cases (text_eq part entry)) [
        | inl here ↦
            let same = (text_eq_iff part entry).0 here in
            first s (subst (All (λ c. c ≢ b':')) same free) (split ∙ ap (λ p. p ++ b':' ∷ s) same)
        | inr there ↦
            later part s split (split_path-IsEntry entry [] s tt (ground (arith, colon, there, h)))
      ]
  | inr other ↦ subst (IsEntry entry) (append_assoc part (c ∷ []) s) (
      split_path-IsEntry entry (part ++ c ∷ []) s
        (All-snoc (λ c. c ≢ b':') part c free (ground (arith, other))) (ground (arith, other, h)))
]

split_path-part :
    (part path rest : Text)
    → All (λ c. c ≢ b':') path
    → (has_text (part ++ path) (split_path part path) ≡ true)
      × (has_text (part ++ path) (split_path part (path ++ b':' ∷ rest)) ≡ true)
unfolding split_path has_text
split_path-part part [] rest free =
    let same = (text_eq_iff part (part ++ [])).1 (sym (append-nil part)) in
    (ground (arith, same), ground (arith, same))
split_path-part part (c ∷ path) rest (off, free) =
    let (alone, followed) = split_path-part (part ++ c ∷ []) path rest free in
    let other : (c == 58) ≡ false = ground (arith, off) in
    let same : (part ++ c ∷ []) ++ path ≡ part ++ c ∷ path = append_assoc part (c ∷ []) path in
    (
      rw other (subst (λ e. has_text e (split_path (part ++ c ∷ []) path) ≡ true) same alone),
      rw other (
          subst (λ e. has_text e (split_path (part ++ c ∷ []) (path ++ b':' ∷ rest)) ≡ true) same
            followed),
    )

split_path-later :
    (entry part before rest : Text)
    → has_text entry (split_path [] rest) ≡ true
    → has_text entry (split_path part (before ++ b':' ∷ rest)) ≡ true
unfolding split_path has_text
split_path-later entry part [] rest h = ground (arith, h)
split_path-later entry part (c ∷ before) rest h = elim (Bool-cases (c == 58)) [
  | inl colon ↦ ground (arith, colon, split_path-later entry [] before rest h)
  | inr other ↦ ground (arith, other, split_path-later entry (part ++ c ∷ []) before rest h)
]

pub IsEntry-split_path :
    (entry path : Text) → IsEntry entry path → has_text entry (split_path [] path) ≡ true
IsEntry-split_path entry path (whole free same) =
    subst (λ p. has_text entry (split_path [] p) ≡ true) (sym same)
      (split_path-part [] entry [] free).0
IsEntry-split_path entry path (first rest free same) =
    subst (λ p. has_text entry (split_path [] p) ≡ true) (sym same)
      (split_path-part [] entry rest free).1
IsEntry-split_path entry path (later before rest same inside) =
    subst (λ p. has_text entry (split_path [] p) ≡ true) (sym same)
      (split_path-later entry [] before rest (IsEntry-split_path entry rest inside))
