-- ===== src/Worker/Signature/Covered.antt =====
-- elide/private/ic_worker/IncrementalWorker.java: what the digest of `signature` is taken of.
use rules_elide.Prelude.{
  ℕ, ◌≡◌, ◌⊎◌, ◌↔◌, Bool, if◌then◌else◌, ◌∙◌, refl, ap, sym, subst, false, List, [], ◌∷◌, map,
  arith, All, some_injective, length, Bool-cases, inl, inr,
}
use rules_elide.Prelude.Text.{Text}
use rules_elide.Worker.Messages.{Input, WorkRequest}
use rules_elide.Worker.Messages.Arguments.{IsCarried}
use rules_elide.Worker.Signature.{
  Digests, classpath, insert_input, sort_inputs, is_tracked_natively, frames, input_blobs,
  signed_blobs, signature,
}
use rules_elide.Worker.Signature.Classpath.{IsTracked, is_tracked_natively_iff}
use rules_elide.Worker.Signature.Frames.{
  IsBlob, cons_head, cons_tail, cong_cons, append_split, frames_injective,
}

-- The input is one of the list.
abbrev pub IsIn : Input → List Input → Type 0
IsIn i [] = ⊥
IsIn i (j ∷ js) = (i ≡ j) ⊎ IsIn i js

IsIn-insert_input :
    (leb : Text → Text → Bool) (i j : Input) (js : List Input)
    → IsIn i (insert_input leb j js) ↔ ((i ≡ j) ⊎ IsIn i js)
unfolding insert_input
IsIn-insert_input leb i j [] = (λ h. h, λ h. h)
IsIn-insert_input leb i j (k ∷ js) = elim (Bool-cases (leb j.path k.path)) [
  | inl here ↦ rw here (λ h. h, λ h. h)
  | inr there ↦ rw there (
      three (i ≡ j) (i ≡ k) (IsIn i js) (IsIn i (insert_input leb j js))
        (IsIn-insert_input leb i j js))
]
  where
    three : (A B C D : Type 0) → D ↔ (A ⊎ C) → (B ⊎ D) ↔ (A ⊎ (B ⊎ C))
    three A B C D h = ground (arith, h)

IsIn-sort_inputs :
    (leb : Text → Text → Bool) (i : Input) (is : List Input)
    → IsIn i (sort_inputs leb is) ↔ IsIn i is
unfolding sort_inputs
IsIn-sort_inputs leb i [] = (λ h. h, λ h. h)
IsIn-sort_inputs leb i (j ∷ is) =
    let (split, join) = IsIn-insert_input leb i j (sort_inputs leb is) in
    let (rest, rest') = IsIn-sort_inputs leb i is in
    (
      λ h. elim (split h) [ inl e ↦ inl e | inr m ↦ inr (rest m) ],
      λ h. join (elim h [ inl e ↦ inl e | inr m ↦ inr (rest' m) ]),
    )

All-at : (P : Input → Type 0) (i : Input) (is : List Input) → All P is → IsIn i is → P i
All-at P i [] h m = absurd m
All-at P i (j ∷ is) (h, hs) (inl e) = subst P (sym e) h
All-at P i (j ∷ is) (h, hs) (inr m) = All-at P i is hs m

All-of : (P : Input → Type 0) (is : List Input) → ((i : Input) → IsIn i is → P i) → All P is
All-of P [] h = tt
All-of P (i ∷ is) h = (h i (inl refl), All-of P is λ j m. h j (inr m))

-- The inputs that are not left out.
left_in : List Text → List Input → List Input
left_in jars [] = []
left_in jars (i ∷ is) =
    let more = left_in jars is in if is_tracked_natively jars i then more else i ∷ more

IsIn-left_in :
    (jars : List Text) (i : Input) (is : List Input) → IsIn i (left_in jars is) → IsIn i is
unfolding left_in
IsIn-left_in jars i [] m = m
IsIn-left_in jars i (j ∷ is) m = elim (Bool-cases (is_tracked_natively jars j)) [
  | inl tracked ↦ inr (IsIn-left_in jars i is (rw tracked at m))
  | inr covered ↦ elim (rw covered at m) [ inl e ↦ inl e | inr k ↦ inr (IsIn-left_in jars i is k) ]
]

left_in-IsIn :
    (jars : List Text) (i : Input) (is : List Input)
    → is_tracked_natively jars i ≡ false
    → IsIn i is
    → IsIn i (left_in jars is)
unfolding left_in
left_in-IsIn jars i [] h m = m
left_in-IsIn jars i (j ∷ is) h (inl e) = rw (ap (is_tracked_natively jars) (sym e) ∙ h) (inl e)
left_in-IsIn jars i (j ∷ is) h (inr m) =
    let rest = left_in-IsIn jars i is h m in
    elim (Bool-cases (is_tracked_natively jars j)) [
      | inl tracked ↦ rw tracked rest
      | inr covered ↦ rw covered (inr rest)
    ]

left_in-All :
    (P : Input → Type 0) (leb : Text → Text → Bool) (jars : List Text) (is : List Input)
    → All P is
    → All P (left_in jars (sort_inputs leb is))
left_in-All P leb jars is h = All-of P (left_in jars (sort_inputs leb is)) λ i m.
    All-at P i is h ((IsIn-sort_inputs leb i is).0 (IsIn-left_in jars i (sort_inputs leb is) m))

-- The same inputs left in: each input of the one is left out, or an input of the other.
left_in-covers :
    (leb : Text → Text → Bool) (args brgs : List Text) (is js : List Input)
    → left_in (classpath args) (sort_inputs leb is) ≡ left_in (classpath brgs) (sort_inputs leb js)
    → All (λ i. IsTracked args i.path ⊎ IsIn i js) is
left_in-covers leb args brgs is js same = All-of _ is λ i m.
    elim (Bool-cases (is_tracked_natively (classpath args) i)) [
      | inl tracked ↦ inl ((is_tracked_natively_iff args i).0 tracked)
      | inr covered ↦
          let here =
            left_in-IsIn (classpath args) i (sort_inputs leb is) covered
              ((IsIn-sort_inputs leb i is).1 m) in
          inr (
            (IsIn-sort_inputs leb i js).0
              (IsIn-left_in (classpath brgs) i (sort_inputs leb js) (subst (IsIn i) same here)))
    ]

same_input : {i j : Input} → i.path ≡ j.path → i.digest ≡ j.digest → i ≡ j
same_input p d = cc

module _ (digests : Digests) where
  open digests use {utf8, sha256, base64, path_leb}

  encode_injective :
      (xs ys : List Text)
      → All (IsCarried utf8) xs
      → All (IsCarried utf8) ys
      → map utf8.encode xs ≡ map utf8.encode ys
      → xs ≡ ys
  encode_injective [] [] cx cy e = refl
  encode_injective [] (y ∷ ys) cx cy e = cc
  encode_injective (x ∷ xs) [] cx cy e = cc
  encode_injective (x ∷ xs) (y ∷ ys) cx cy e =
      let p : x ≡ y =
        some_injective (sym cx.0.decoded ∙ ap utf8.decode (cons_head e) ∙ cy.0.decoded) in
      cong_cons p (encode_injective xs ys cx.1 cy.1 (cons_tail e))

  length-map : (f : Text → List ℕ) (xs : List Text) → length (map f xs) ≡ length xs
  length-map f [] = refl
  length-map f (x ∷ xs) = omega (arith, length-map f xs)

  -- The path and the digest of each input that is not left out.
  blobs_of : List Input → List (List ℕ)
  blobs_of [] = []
  blobs_of (i ∷ is) = utf8.encode i.path ∷ i.digest ∷ blobs_of is

  blobs_of-left_in :
      (jars : List Text) (is : List Input)
      → input_blobs digests jars is ≡ blobs_of (left_in jars is)
  unfolding input_blobs blobs_of left_in
  blobs_of-left_in jars [] = refl
  blobs_of-left_in jars (i ∷ is) = ground (arith, blobs_of-left_in jars is)

  blobs_of_injective :
      (is js : List Input)
      → All (λ i. IsCarried utf8 i.path) is
      → All (λ i. IsCarried utf8 i.path) js
      → blobs_of is ≡ blobs_of js
      → is ≡ js
  unfolding blobs_of
  blobs_of_injective [] [] ci cj e = refl
  blobs_of_injective [] (j ∷ js) ci cj e = cc
  blobs_of_injective (i ∷ is) [] ci cj e = cc
  blobs_of_injective (i ∷ is) (j ∷ js) ci cj e =
      let path : i.path ≡ j.path =
        some_injective (sym ci.0.decoded ∙ ap utf8.decode (cons_head e) ∙ cj.0.decoded) in
      let digest : i.digest ≡ j.digest = cons_head (cons_tail e) in
      cong_cons (same_input path digest)
        (blobs_of_injective is js ci.1 cj.1 (cons_tail (cons_tail e)))

  -- Two requests with as many arguments, with texts and paths that the codec carries and blobs below
  -- 2 ^ 32 bytes, on which the digest does not collide, have the same signature only if they have
  -- the same arguments and each input of the one, but sources and ordinary class path jars, is an
  -- input of the other, with the same path and digest.
  pub signature_determines :
      (r q : WorkRequest)
      → length r.arguments ≡ length q.arguments
      → All (IsCarried utf8) r.arguments
      → All (IsCarried utf8) q.arguments
      → All (λ i. IsCarried utf8 i.path) r.inputs
      → All (λ i. IsCarried utf8 i.path) q.inputs
      → All IsBlob (signed_blobs digests r)
      → All IsBlob (signed_blobs digests q)
      → (base64 (sha256 (frames (signed_blobs digests r)))
            ≡ base64 (sha256 (frames (signed_blobs digests q)))
          → frames (signed_blobs digests r) ≡ frames (signed_blobs digests q))
      → signature digests r ≡ signature digests q
      → (r.arguments ≡ q.arguments)
        × All (λ i. IsTracked r.arguments i.path ⊎ IsIn i q.inputs) r.inputs
        × All (λ i. IsTracked q.arguments i.path ⊎ IsIn i r.inputs) q.inputs
  unfolding signature signed_blobs
  signature_determines r q n cr cq ir iq br bq no_collision e =
      let blobs =
        frames_injective (signed_blobs digests r) (signed_blobs digests q) br bq (no_collision e) in
      let (p, same) =
        append_split (map utf8.encode r.arguments) (map utf8.encode q.arguments) _ _
          (omega (arith, n, length-map utf8.encode r.arguments, length-map utf8.encode q.arguments))
          blobs in
      let sorted_r = sort_inputs path_leb r.inputs in
      let sorted_q = sort_inputs path_leb q.inputs in
      let inputs : left_in (classpath r.arguments) sorted_r
          ≡ left_in (classpath q.arguments) sorted_q =
        blobs_of_injective _ _ (left_in-All _ path_leb (classpath r.arguments) r.inputs ir)
          (left_in-All _ path_leb (classpath q.arguments) q.inputs iq)
          (sym (blobs_of-left_in (classpath r.arguments) sorted_r)
            ∙ same
            ∙ blobs_of-left_in (classpath q.arguments) sorted_q) in
      (
        encode_injective r.arguments q.arguments cr cq p,
        left_in-covers path_leb r.arguments q.arguments r.inputs q.inputs inputs,
        left_in-covers path_leb q.arguments r.arguments q.inputs r.inputs (sym inputs),
      )
