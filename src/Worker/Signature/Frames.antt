-- ===== src/Worker/Signature/Frames.antt =====
-- elide/private/ic_worker/IncrementalWorker.java: `hash` puts a length before each blob of `signature`.
use rules_elide.Prelude.{ℕ, ◌/◌, ◌%◌, ◌^◌, ◌<◌, ◌≡◌, refl, List, [], ◌∷◌, ◌++◌, arith, All, length}
use rules_elide.Worker.Signature.{length_prefixed, frames}

-- A blob that Java can hold.
abbrev pub IsBlob : List ℕ → Type 0
IsBlob blob = length blob < 2 ^ 32

same_length :
    (n m : ℕ)
    → n < 2 ^ 32
    → m < 2 ^ 32
    → n / 2 ^ 24 % 256 ≡ m / 2 ^ 24 % 256
    → n / 2 ^ 16 % 256 ≡ m / 2 ^ 16 % 256
    → n / 2 ^ 8 % 256 ≡ m / 2 ^ 8 % 256
    → n % 256 ≡ m % 256
    → n ≡ m
same_length n m h k a b c d = omega (arith, h, k, a, b, c, d)

pub cons_head {ℓ} : {A : Type ℓ} {x y : A} {s t : List A} → x ∷ s ≡ y ∷ t → x ≡ y
cons_head e = cc

pub cons_tail {ℓ} : {A : Type ℓ} {x y : A} {s t : List A} → x ∷ s ≡ y ∷ t → s ≡ t
cons_tail e = cc

pub cong_cons {ℓ} : {A : Type ℓ} {x y : A} {s t : List A} → x ≡ y → s ≡ t → x ∷ s ≡ y ∷ t
cong_cons p q = cc

pub append_split {ℓ} :
    {A : Type ℓ} (a b s t : List A) → length a ≡ length b → a ++ s ≡ b ++ t → (a ≡ b) × (s ≡ t)
append_split [] [] s t h e = (refl, e)
append_split [] (y ∷ b) s t h e = absurd (omega (arith, h))
append_split (x ∷ a) [] s t h e = absurd (omega (arith, h))
append_split (x ∷ a) (y ∷ b) s t h e =
    let (p, q) = append_split a b s t (omega (arith, h)) (cons_tail e) in
    (cong_cons (cons_head e) p, q)

pub frames_injective :
    (xs ys : List (List ℕ)) → All IsBlob xs → All IsBlob ys → frames xs ≡ frames ys → xs ≡ ys
unfolding frames length_prefixed
frames_injective [] [] bx by e = refl
frames_injective [] (y ∷ ys) bx by e = cc
frames_injective (x ∷ xs) [] bx by e = cc
frames_injective (x ∷ xs) (y ∷ ys) bx by e =
    let n = same_length (length x) (length y) bx.0 by.0 (cc) (cc) (cc) (cc) in
    let (p, q) = append_split x y (frames xs) (frames ys) n (cc) in
    cong_cons p (frames_injective xs ys bx.1 by.1 q)
