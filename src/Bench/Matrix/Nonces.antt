-- ===== src/Bench/Matrix/Nonces.antt =====
-- benchmarks/incremental_matrix.py: what the nonce does to the text that `change` writes.
use rules_elide.Prelude.{ℕ, ◌<◌, ◌≡◌, ◌≢◌, ◌∙◌, sym, refl, [], ◌∷◌, ◌++◌, some, arith, append_assoc}
use rules_elide.Prelude.Text.{Text, codes}
use rules_elide.Prelude.Decimal.{decimal, decimal_prefix}
use rules_elide.Prelude.Search.{
  append_cancel, insert_before_last-cancel, split_first, replace_first, replace_first-found,
}
use rules_elide.Bench.Matrix.{Language, java, kotlin, Kind, addition, changed}

-- A text with a number behind two others, and something that is no digit behind the number.
number_in_text :
    (a k q r s t : Text) (x n m : ℕ)
    → x < 48
    → (a ++ (k ++ (decimal n ++ x ∷ q))) ++ s ≡ (a ++ (k ++ (decimal m ++ x ∷ r))) ++ t
    → n ≡ m
number_in_text a k q r s t x n m low e = decimal_prefix n m x (q ++ s) (r ++ t) low (
    append_cancel k _ _
      (append_cancel a _ _ (sym (flat (decimal n) q s) ∙ e ∙ flat (decimal m) r t)))
  where
    flat : (d q s : Text) → (a ++ (k ++ (d ++ x ∷ q))) ++ s ≡ a ++ (k ++ (d ++ x ∷ (q ++ s)))
    flat d q s = simp append_assoc

addition-nonce :
    (language : Language) (visibility s t : Text) (n m : ℕ)
    → addition language visibility n ++ s ≡ addition language visibility m ++ t
    → n ≡ m
unfolding addition
addition-nonce java visibility s t n m e =
    number_in_text visibility (codes " static int added") _ _ s t b'(' n m (omega arith) e
addition-nonce kotlin visibility s t n m e =
    number_in_text visibility (codes " fun added") _ _ s t b'(' n m (omega arith) e

-- What the edit of a body replaces.
abbrev pub body_target : Language → Text
body_target java = codes "return "
body_target kotlin = codes "fun value(): Int = "

body-nonce :
    (target original before rest : Text) (n m : ℕ)
    → split_first target original ≡ some (before, rest)
    → replace_first original target (target ++ (decimal n ++ codes " + "))
      ≡ replace_first original target (target ++ (decimal m ++ codes " + "))
    → n ≡ m
body-nonce target original before rest n m found e =
    let left =
      replace_first-found original target (target ++ (decimal n ++ codes " + ")) before rest
        found in
    let right =
      replace_first-found original target (target ++ (decimal m ++ codes " + ")) before rest
        found in
    number_in_text [] target (codes "+ ") (codes "+ ") rest rest b' ' n m (omega arith)
      (append_cancel before _ _ (sym left ∙ e ∙ right))

-- In a source with a body to edit, the edits by a comment, by a member and of the body have different
-- results with different nonces.
changed-nonce :
    (language : Language) (kind : Kind) (n m : ℕ) (original before rest : Text)
    → kind ≢ Kind.special
    → split_first (body_target language) original ≡ some (before, rest)
    → n ≢ m
    → changed language kind n original ≢ changed language kind m original
unfolding changed
changed-nonce language Kind.comment n m original before rest h found other e = other (
    decimal_prefix n m 10 [] [] (omega arith)
      (append_cancel (codes "// edit ") _ _ (append_cancel original _ _ e)))
changed-nonce language Kind.private n m original before rest h found other e =
    let (tail, same) =
      insert_before_last-cancel b'}' (addition language (codes "private") n)
        (addition language (codes "private") m) original e in
    other (addition-nonce language (codes "private") tail tail n m same)
changed-nonce language Kind.public n m original before rest h found other e =
    let (tail, same) =
      insert_before_last-cancel b'}' (addition language (codes "public") n)
        (addition language (codes "public") m) original e in
    other (addition-nonce language (codes "public") tail tail n m same)
changed-nonce language Kind.special n m original before rest h found other e = h refl
changed-nonce java Kind.body n m original before rest h found other e =
    other (body-nonce (codes "return ") original before rest n m found e)
changed-nonce kotlin Kind.body n m original before rest h found other e =
    other (body-nonce (codes "fun value(): Int = ") original before rest n m found e)
