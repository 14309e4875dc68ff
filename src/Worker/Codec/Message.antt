-- ===== src/Worker/Codec/Message.antt =====
-- `WorkerProtocol.fields`: the fields of a message are its bytes, each one read from its own bytes.
use rules_elide.Prelude.{
  ℕ, zero, suc, ◌==◌, ◌+◌, ◌*◌, ◌≤◌, ◌≡◌, ◌∙◌, refl, ap, sym, subst, false, List, [], ◌∷◌, ◌++◌,
  arith, length, length-append, All, Bool-cases, ok, Result-cases, ok_injective, inl, inr,
}
use rules_elide.Worker.Codec.{CodecError, Field, parse_field, fields_rounds, message_fields}
use rules_elide.Worker.Codec.Nested.{field-FieldTaken}

-- The bytes of the fields, as `writeDelimitedTo` writes them.
unfoldable pub raws : List Field → List ℕ
raws [] = []
raws (x ∷ xs) = x.raw ++ raws xs

-- A field of a message: its bytes are read as this field, whatever comes behind them.
pub record IsWhole (x : Field) : Type 0 where
  pub some_byte : 1 ≤ length x.raw
  pub opens : (x.wire == 4) ≡ false
  pub reads : (g : ℕ) (t : List ℕ) → 2 * length x.raw ≤ g → parse_field g 0 (x.raw ++ t) ≡ ok (x, t)

-- What a field takes from the front is its `raw`.
raw-front :
    (fuel : ℕ) (input : List ℕ) (x : Field) (left : List ℕ)
    → parse_field fuel 0 input ≡ ok (x, left)
    → (x.wire == 4) ≡ false
    → (input ≡ x.raw ++ left) × IsWhole x
raw-front fuel input x left e opens =
    let f = field-FieldTaken fuel 0 input x left e in
    (
      rw f.raw_is_front f.taken.split,
      record {
        some_byte = rw f.raw_is_front f.some_byte;
        opens = opens;
        reads = λ g t h.
            ap (λ r. parse_field g 0 (r ++ t)) f.raw_is_front
            ∙ f.taken.again g t (omega (arith, ap length f.raw_is_front));
      },
    )

fields_rounds-IsWhole :
    (rounds : ℕ) (input : List ℕ) {fs : List Field}
    → fields_rounds rounds input ≡ ok fs
    → (raws fs ≡ input) × All IsWhole fs
unfolding fields_rounds raws
fields_rounds-IsWhole zero [] e =
    subst (λ ys. (raws ys ≡ []) × All IsWhole ys) (ok_injective e) (refl, tt)
fields_rounds-IsWhole zero (b ∷ input) e = absurd (ground (arith, e))
fields_rounds-IsWhole (suc rounds) [] e =
    subst (λ ys. (raws ys ≡ []) × All IsWhole ys) (ok_injective e) (refl, tt)
fields_rounds-IsWhole (suc rounds) (b ∷ input) {fs} e =
    elim (Result-cases (parse_field (2 * length (b ∷ input) + 1) 0 (b ∷ input))) [
      | inr (x, bad) ↦ absurd (ground (arith, bad, e))
      | inl ((x, left), good) ↦ elim (Bool-cases (x.wire == 4)) [
        | inl ends ↦ absurd (ground (arith, good, ends, e))
        | inr opens ↦ elim (Result-cases (fields_rounds rounds left)) [
          | inr (y, bad) ↦ absurd (ground (arith, good, opens, bad, e))
          | inl (xs, more) ↦
              let f = raw-front (2 * length (b ∷ input) + 1) (b ∷ input) x left good opens in
              let rest = fields_rounds-IsWhole rounds left {fs = xs} more in
              let same : x ∷ xs ≡ fs =
                ok_injective {E = CodecError} (ground (arith, good, opens, more, e)) in
              subst (λ ys. (raws ys ≡ b ∷ input) × All IsWhole ys) same
                (ap (λ t. x.raw ++ t) rest.0 ∙ sym f.0, (f.1, rest.1))
        ]
      ]
    ]

fields_rounds-step :
    (rounds : ℕ) (raw t : List ℕ) (x : Field) (xs : List Field)
    → 1 ≤ length raw
    → parse_field (2 * length (raw ++ t) + 1) 0 (raw ++ t) ≡ ok (x, t)
    → (x.wire == 4) ≡ false
    → fields_rounds rounds t ≡ ok xs
    → fields_rounds (suc rounds) (raw ++ t) ≡ ok (x ∷ xs)
unfolding fields_rounds
fields_rounds-step rounds [] t x xs h e opens more = absurd (omega (arith, h))
fields_rounds-step rounds (b ∷ raw) t x xs h e opens more = ground (arith, e, opens, more)

fields_rounds-raws :
    (rounds : ℕ) (fs : List Field)
    → All IsWhole fs
    → length (raws fs) ≤ rounds
    → fields_rounds rounds (raws fs) ≡ ok fs
unfolding fields_rounds raws
fields_rounds-raws zero [] w h = refl
fields_rounds-raws (suc rounds) [] w h = refl
fields_rounds-raws zero (x ∷ xs) w h =
    absurd (omega (arith, w.0.some_byte, length-append x.raw (raws xs)))
fields_rounds-raws (suc rounds) (x ∷ xs) w h =
    fields_rounds-step rounds x.raw (raws xs) x xs w.0.some_byte
      (w.0.reads _ (raws xs) (omega (arith, length-append x.raw (raws xs)))) w.0.opens
      (fields_rounds-raws rounds xs w.1
        (omega (arith, h, w.0.some_byte, length-append x.raw (raws xs))))

-- A message that is read is the bytes of its fields, in their order, and each of them is whole.
pub message_fields-IsWhole :
    (input : List ℕ) {fs : List Field}
    → message_fields input ≡ ok fs
    → (raws fs ≡ input) × All IsWhole fs
unfolding message_fields
message_fields-IsWhole input e = fields_rounds-IsWhole (length input) input e

pub message_fields-raws : (fs : List Field) → All IsWhole fs → message_fields (raws fs) ≡ ok fs
unfolding message_fields
message_fields-raws fs w = fields_rounds-raws (length (raws fs)) fs w (omega arith)
