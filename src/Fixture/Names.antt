-- ===== src/Fixture/Names.antt =====
-- e2e/gen_fixture.py: no two files of the fixture have one name.
use rules_elide.Prelude.{ℕ, zero, suc, ◌<◌, ◌≡◌, refl, ◌∷◌, ◌++◌, none, arith}
use rules_elide.Prelude.Text.{Text, codes, text_eq_iff}
use rules_elide.Prelude.Decimal.{decimal, zeros_prefix}
use rules_elide.Prelude.Dict.{lookup, lookup-cons, NodupKeys}
use rules_elide.Prelude.Search.{append_cancel}
use rules_elide.Fixture.{
  zfill, tag_width, kotlin_source, java_source, kotlin_files, java_files, fixture_files,
}

kotlin_name : ℕ → ℕ → Text
kotlin_name width i = codes "Gen" ++ (zfill width (decimal i) ++ codes ".kt")

java_name : ℕ → ℕ → Text
java_name width i = codes "GenJava" ++ (zfill width (decimal i) ++ codes ".java")

kotlin_name_injective : (width i j : ℕ) → kotlin_name width i ≡ kotlin_name width j → i ≡ j
unfolding kotlin_name zfill
kotlin_name_injective width i j e =
    zeros_prefix _ _ i j b'.' (codes "kt") (codes "kt") (omega arith)
      (append_cancel (codes "Gen") _ _ e)

java_name_injective : (width i j : ℕ) → java_name width i ≡ java_name width j → i ≡ j
unfolding java_name zfill
java_name_injective width i j e =
    zeros_prefix _ _ i j b'.' (codes "java") (codes "java") (omega arith)
      (append_cancel (codes "GenJava") _ _ e)

kotlin_files-suc :
    (width i left : ℕ)
    → kotlin_files width i (suc left)
      ≡ (kotlin_name width i, kotlin_source i (zfill width (decimal i)))
        ∷ kotlin_files width (suc i) left
unfolding kotlin_files kotlin_name
kotlin_files-suc width i left = refl

-- The first name of a range is not among the later ones.
kotlin_files-none :
    (width j i left : ℕ) → j < i → lookup (kotlin_name width j) (kotlin_files width i left) ≡ none
kotlin_files-none width j i zero h = unfold lookup kotlin_files in refl
kotlin_files-none width j i (suc left) h = rw (kotlin_files-suc width i left) (
    ground (
      arith,
      lookup-cons (kotlin_name width j) (kotlin_name width i)
          (kotlin_source i (zfill width (decimal i))) (kotlin_files width (suc i) left),
      text_eq_iff (kotlin_name width i) (kotlin_name width j),
      kotlin_name_injective width i j,
      kotlin_files-none width j (suc i) left (omega arith),
    ))

kotlin_files-NodupKeys : (width i left : ℕ) → NodupKeys (kotlin_files width i left)
kotlin_files-NodupKeys width i zero = unfold kotlin_files in tt
kotlin_files-NodupKeys width i (suc left) = rw (kotlin_files-suc width i left) (
  kotlin_files-none width i (suc i) left (omega arith),
  kotlin_files-NodupKeys width (suc i) left,
)

java_files-suc :
    (width i left : ℕ)
    → java_files width i (suc left)
      ≡ (java_name width i, java_source i (zfill width (decimal i))) ∷ java_files width (suc i) left
unfolding java_files java_name
java_files-suc width i left = refl

-- The first name of a range is not among the later ones.
java_files-none :
    (width j i left : ℕ) → j < i → lookup (java_name width j) (java_files width i left) ≡ none
java_files-none width j i zero h = unfold lookup java_files in refl
java_files-none width j i (suc left) h = rw (java_files-suc width i left) (
    ground (
      arith,
      lookup-cons (java_name width j) (java_name width i) (java_source i (zfill width (decimal i)))
          (java_files width (suc i) left),
      text_eq_iff (java_name width i) (java_name width j),
      java_name_injective width i j,
      java_files-none width j (suc i) left (omega arith),
    ))

java_files-NodupKeys : (width i left : ℕ) → NodupKeys (java_files width i left)
java_files-NodupKeys width i zero = unfold java_files in tt
java_files-NodupKeys width i (suc left) =
    rw (java_files-suc width i left)
      (java_files-none width i (suc i) left (omega arith), java_files-NodupKeys width (suc i) left)

-- Whatever their number, the files of each directory have names of their own: none is overwritten.
fixture_files-NodupKeys : (n : ℕ) → NodupKeys (fixture_files n).0 × NodupKeys (fixture_files n).1
unfolding fixture_files
fixture_files-NodupKeys n =
    (kotlin_files-NodupKeys (tag_width n) 0 n, java_files-NodupKeys (tag_width n) 0 n)
