-- ===== src/Worker/Codec/Local.antt =====
-- A reader of `WorkerProtocol` takes bytes from the front and looks at no byte behind them.
use rules_elide.Prelude.{
  ℕ, zero, suc, ◌==◌, ◌&&◌, ◌||◌, length-take, ◌+◌, ◌*◌, ◌^◌, ◌≤◌, ◌<◌, ◌≡◌, refl, ap, sym, bit_and,
  bit_or, List, [], ◌∷◌, ◌++◌, arith, append_assoc, length, length-append, take, drop, take-append,
  drop-append, ltb, leb, Bool-cases, Result, ok, Result-cases, inl, inr,
}
use rules_elide.Worker.Codec.{
  CodecError, Content, varint_rounds, cursor_varint, cursor_skip, parse_content,
}

abbrev pub Reader : Type 0 → Type 0
Reader A = ℕ → List ℕ → Result CodecError (A × List ℕ)

-- The reader takes `front`, and on fuel in proportion does so before any other bytes.
pub record Taken {A : Type 0} (slack : ℕ) (run : Reader A) (input : List ℕ) (a : A) (left : List ℕ)
    : Type 0 where
  pub front : List ℕ
  pub split : input ≡ front ++ left
  pub again : (g : ℕ) (t : List ℕ) → 2 * length front + slack ≤ g → run g (front ++ t) ≡ ok (a, t)

varint_rounds_takes :
    (rounds shift value : ℕ) (input : List ℕ) {n : ℕ} {left : List ℕ}
    → varint_rounds rounds shift value input ≡ ok (n, left)
    → (front : List ℕ) × (input ≡ front ++ left)
      × (1 ≤ length front)
      × ((t : List ℕ) → varint_rounds rounds shift value (front ++ t) ≡ ok (n, t))
unfolding varint_rounds
varint_rounds_takes zero shift value input e = cc
varint_rounds_takes (suc rounds) shift value [] e = cc
varint_rounds_takes (suc rounds) shift value (b ∷ input) {n} {left} e =
    elim (Bool-cases (shift == 63 && ltb 1 b)) [
      | inl bad ↦ absurd (ground (arith, bad, e))
      | inr good ↦ elim (Bool-cases (ltb b 128)) [
        | inl last ↦
            (b ∷ [], ground (arith, good, last, e), omega arith, λ t. ground (arith, good, last, e))
        | inr big ↦
            let rest =
              varint_rounds_takes rounds (shift + 7) (bit_or value (bit_and b 127 * 2 ^ shift))
                input {n = n} {left = left} (ground (arith, good, big, e)) in
            (
              b ∷ rest.0,
              ap (λ xs. b ∷ xs) rest.1,
              omega arith,
              λ t. ground (arith, good, big, rest.3 t),
            )
      ]
    ]

pub cursor_varint_takes :
    (input : List ℕ) {n : ℕ} {left : List ℕ}
    → cursor_varint input ≡ ok (n, left)
    → (front : List ℕ) × (input ≡ front ++ left)
      × (1 ≤ length front)
      × ((t : List ℕ) → cursor_varint (front ++ t) ≡ ok (n, t))
unfolding cursor_varint
cursor_varint_takes input e = varint_rounds_takes 10 0 0 input e

take-drop : (n : ℕ) (xs : List ℕ) → take n xs ++ drop n xs ≡ xs
take-drop zero xs = refl
take-drop (suc n) [] = refl
take-drop (suc n) (x ∷ xs) = ap (λ t. x ∷ t) (take-drop n xs)

pub cursor_skip-passes :
    (n : ℕ) (skipped t : List ℕ)
    → length skipped ≡ n
    → n < 2 ^ 63
    → cursor_skip n (skipped ++ t) ≡ ok (skipped, t)
unfolding cursor_skip
cursor_skip-passes n skipped t e h =
    rw (sym e, take-append skipped t, drop-append skipped t)
      (ground (arith, length-append skipped t, e))

pub cursor_skip_takes :
    (n : ℕ) (input : List ℕ) {skipped left : List ℕ}
    → cursor_skip n input ≡ ok (skipped, left)
    → (input ≡ skipped ++ left) × ((t : List ℕ) → cursor_skip n (skipped ++ t) ≡ ok (skipped, t))
unfolding cursor_skip
cursor_skip_takes n input {skipped} {left} e =
    elim (Bool-cases (leb (2 ^ 63) n || ltb (length input) n)) [
      | inl bad ↦ absurd (ground (arith, bad, e))
      | inr good ↦ (
        ground (arith, good, e, take-drop n input),
        λ t.
            cursor_skip-passes n skipped t (ground (arith, good, e, length-take n input))
              (ground (arith, good)),
      )
    ]

-- A reader that takes bytes from the front only.
abbrev pub TakesFront : Reader Content → ℕ → Type 0
TakesFront run f =
    (input : List ℕ) (c : Content) (left : List ℕ)
    → run f input ≡ ok (c, left)
    → Taken 1 run input c left

pub content-Taken :
    (run : Reader Content) (f wire : ℕ) (input : List ℕ) {c : Content} {left : List ℕ}
    → TakesFront run f
    → parse_content (run f) wire input ≡ ok (c, left)
    → Taken 1 (λ g. parse_content (run g) wire) input c left
unfolding parse_content
content-Taken run f zero input {c} {left} group e = elim (Result-cases (cursor_varint input)) [
  | inr (x, bad) ↦ absurd (ground (arith, bad, e))
  | inl ((n, rest), good) ↦
      let taken = cursor_varint_takes input good in
      record {
        front = taken.0;
        split = ground (arith, taken.1, good, e);
        again = λ g t h. ground (arith, taken.3 t, good, e);
      }
]
content-Taken run f (suc zero) input {c} {left} group e =
    elim (Result-cases (cursor_skip 8 input)) [
      | inr (x, bad) ↦ absurd (ground (arith, bad, e))
      | inl ((skipped, rest), good) ↦
          let taken = cursor_skip_takes 8 input good in
          record {
            front = skipped;
            split = ground (arith, taken.0, good, e);
            again = λ g t h. ground (arith, taken.1 t, good, e);
          }
    ]
content-Taken run f (suc (suc zero)) input {c} {left} group e =
    elim (Result-cases (cursor_varint input)) [
      | inr (x, bad) ↦ absurd (ground (arith, bad, e))
      | inl ((n, rest), good) ↦ elim (Result-cases (cursor_skip n rest)) [
        | inr (x, bad) ↦ absurd (ground (arith, good, bad, e))
        | inl ((skipped, rest'), fits) ↦
            let size = cursor_varint_takes input good in
            let body = cursor_skip_takes n rest fits in
            record {
              front = size.0 ++ skipped;
              split = rw append_assoc (ground (arith, size.1, body.0, good, fits, e));
              again = λ g t h.
                  rw append_assoc (ground (arith, size.3 (skipped ++ t), body.1 t, good, fits, e));
            }
      ]
    ]
content-Taken run f (suc (suc (suc zero))) input {c} {left} group e = group input c left e
content-Taken run f (suc (suc (suc (suc zero)))) input {c} {left} group e = record {
  front = [];
  split = ground (arith, e);
  again = λ g t h. ground (arith, e);
}
content-Taken run f (suc (suc (suc (suc (suc zero))))) input {c} {left} group e =
    elim (Result-cases (cursor_skip 4 input)) [
      | inr (x, bad) ↦ absurd (ground (arith, bad, e))
      | inl ((skipped, rest), good) ↦
          let taken = cursor_skip_takes 4 input good in
          record {
            front = skipped;
            split = ground (arith, taken.0, good, e);
            again = λ g t h. ground (arith, taken.1 t, good, e);
          }
    ]
content-Taken run f (suc (suc (suc (suc (suc (suc wire)))))) input {c} {left} group e =
    absurd (ground (arith, e))
