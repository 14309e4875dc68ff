-- ===== src/Bench/Edit/Laws.antt =====
-- What the two `mutate` functions write: each run of an edit writes a text that only its nonce
-- writes, and each text written is longer than its source.
use rules_elide.Prelude.{
  ℕ, ◌+◌, ◌≤◌, ◌<◌, ◌≡◌, ◌≢◌, ◌∙◌, sym, ap, inl, inr, List, [], ◌∷◌, ◌++◌, Option, arith,
  append_assoc, Bool-cases, Result, ok, Result-cases, length, length-append,
}
use rules_elide.Prelude.Text.{Text, codes}
use rules_elide.Prelude.Decimal.{decimal, decimal_prefix}
use rules_elide.Prelude.Search.{
  append_cancel, insert_before_last, insert_before_last-cancel, length-insert_before_last,
}
use rules_elide.Bench.Scenario.{Scenario, SourcePath, Sources, EditError, by_name}
use rules_elide.Bench.Scenario.Names.{by_name-name}
use rules_elide.Bench.Edit.{
  Project, replace_once, main_file, edit_comment, body_edit, visibility, added_member, replaced,
  main_edit, edited, written, is_edit, mutate,
}
use rules_elide.Bench.Edit.Replace.{replace_once-replaces}

edit_comment-nonce : (n m : ℕ) → edit_comment n ≡ edit_comment m → n ≡ m
unfolding edit_comment
edit_comment-nonce n m e =
    decimal_prefix n m 10 [] [] (omega arith) (append_cancel (codes "\n// Benchmark edit ") _ _ e)

append_nested :
    (v k d q s : Text) (x : ℕ) → (v ++ (k ++ (d ++ (x ∷ q)))) ++ s ≡ v ++ (k ++ (d ++ x ∷ (q ++ s)))
append_nested v k d q s x = simp append_assoc

framed_nonce :
    (v k q r s t : Text) (x n m : ℕ)
    → x < 48
    → (v ++ (k ++ (decimal n ++ (x ∷ q)))) ++ s ≡ (v ++ (k ++ (decimal m ++ (x ∷ r)))) ++ t
    → n ≡ m
framed_nonce v k q r s t x n m low e = decimal_prefix n m x (q ++ s) (r ++ t) low (
    append_cancel k _ _ (
      append_cancel v _ _
        (sym (append_nested v k (decimal n) q s x) ∙ e ∙ append_nested v k (decimal m) r t x)))

added_member-nonce :
    (project : Project) (scenario : Scenario) (n m : ℕ) (s t : Text)
    → added_member project scenario n ++ s ≡ added_member project scenario m ++ t
    → n ≡ m
unfolding added_member
added_member-nonce Project.commons_lang scenario n m s t e =
    framed_nonce (visibility scenario) (codes " static int benchmarkAdded") _ _ s t b'(' n m
      (omega arith) e
added_member-nonce Project.kotlin_builder scenario n m s t e =
    framed_nonce (visibility scenario) (codes " fun benchmarkAdded") _ _ s t b'(' n m (omega arith)
      e

replaced-nonce :
    (n m : ℕ) (edit : Text × Text) (text out : Text)
    → replaced n edit text ≡ ok out
    → replaced m edit text ≡ ok out
    → n ≡ m
unfolding replaced
replaced-nonce n m (old, new) text out e f = elim (Result-cases (replace_once text old new)) [
  | inl (t, h) ↦ edit_comment-nonce n m (append_cancel t _ _ (cc (rw h at e, rw h at f)))
  | inr (x, h) ↦ cc (rw h at e)
]

main_edit-nonce :
    (project : Project) (scenario : Scenario) (n m : ℕ) (text out : Text)
    → main_edit project scenario n text ≡ ok out
    → main_edit project scenario m text ≡ ok out
    → n ≡ m
unfolding main_edit
main_edit-nonce project Scenario.comment n m text out e f =
    edit_comment-nonce n m (append_cancel text _ _ (cc))
main_edit-nonce project Scenario.body n m text out e f =
    replaced-nonce n m (body_edit project) text out e f
main_edit-nonce project Scenario.multi_file_body n m text out e f =
    replaced-nonce n m (body_edit project) text out e f
main_edit-nonce project scenario n m text out e f =
    let (rest, same) =
      insert_before_last-cancel b'}' (added_member project scenario n)
        (added_member project scenario m) text (cc) in
    added_member-nonce project scenario n m rest rest same

edited_parts :
    (sources : Sources) (name : Text) (edit : Text → Result EditError Text) (w : SourcePath × Text)
    → edited sources name edit ≡ ok w
    → (text : Text) × (by_name sources name ≡ ok (w.0, text)) × (edit text ≡ ok w.1)
unfolding edited
edited_parts sources name edit w e = elim (Result-cases (by_name sources name)) [
  | inr (x, h) ↦ cc (rw h at e)
  | inl ((path, text), h) ↦ elim (Result-cases (edit text)) [
    | inr (x, k) ↦ cc (rw (h, k) at e)
    | inl (out, k) ↦
        let same : ◌≡◌ {A = SourcePath × Text} (path, out) w = cc (rw (h, k) at e) in
        (text, h ∙ ap (λ v. ok (v.0, text)) same, k ∙ ap (λ v. ok v.1) same)
  ]
]

-- A run that has written something: its first write is the main file's.
mutate_first :
    (project : Project) (sources : Sources) (scenario : Scenario) (n : ℕ) (w : SourcePath × Text)
    (ws : List (SourcePath × Text)) (e : Option EditError)
    → mutate project sources scenario n ≡ (w ∷ ws, e)
    → edited sources (main_file project scenario) (main_edit project scenario n) ≡ ok w
unfolding mutate written
mutate_first project sources scenario n w ws e run = elim (Bool-cases (is_edit scenario)) [
  | inr h ↦ cc (rw h at run)
  | inl h ↦
      elim (Result-cases
        (edited sources (main_file project scenario) (main_edit project scenario n))) [
          | inl (v, k) ↦ k ∙ ap ok (cc (rw (h, k) at run))
          | inr (x, k) ↦ cc (rw (h, k) at run)
        ]
]

mutate_same_nonce :
    (project : Project) (sources : Sources) (scenario : Scenario) (n m : ℕ) (w : SourcePath × Text)
    (ws vs : List (SourcePath × Text)) (d e : Option EditError)
    → mutate project sources scenario n ≡ (w ∷ ws, d)
    → mutate project sources scenario m ≡ (w ∷ vs, e)
    → n ≡ m
mutate_same_nonce project sources scenario n m w ws vs d e run again =
    let name = main_file project scenario in
    let (text, here, out) =
      edited_parts sources name (main_edit project scenario n) w
        (mutate_first project sources scenario n w ws d run) in
    let (text', there, out') =
      edited_parts sources name (main_edit project scenario m) w
        (mutate_first project sources scenario m w vs e again) in
    main_edit-nonce project scenario n m text w.1 out (cc)

-- Runs of one scenario with different nonces never begin with the same write, so that no sample
-- brings back the inputs of an earlier one.
pub mutate-nonce :
    (project : Project) (sources : Sources) (scenario : Scenario) (n m : ℕ) (w : SourcePath × Text)
    (ws vs : List (SourcePath × Text)) (d e : Option EditError)
    → n ≢ m
    → mutate project sources scenario n ≡ (w ∷ ws, d)
    → mutate project sources scenario m ≢ (w ∷ vs, e)
mutate-nonce project sources scenario n m w ws vs d e other run again =
    other (mutate_same_nonce project sources scenario n m w ws vs d e run again)

-- A write is of the text that the snapshot has under the file's name, made longer.
abbrev pub IsLonger : Sources → SourcePath × Text → Type 0
IsLonger sources (path, out) =
    (text : Text) × (by_name sources path.name ≡ ok (path, text)) × (length text < length out)

edit_comment_long : (n : ℕ) → 19 ≤ length (edit_comment n)
unfolding edit_comment
edit_comment_long n = omega arith

pub replaced_longer :
    (n : ℕ) (c : ℕ) (old new text out : Text)
    → length (c ∷ old) ≤ length new + 18
    → replaced n (c ∷ old, new) text ≡ ok out
    → length text < length out
unfolding replaced
replaced_longer n c old new text out close e =
    elim (Result-cases (replace_once text (c ∷ old) new)) [
      | inr (x, h) ↦ cc (rw h at e)
      | inl (t, h) ↦
          let (before, after, whole, only, made) = replace_once-replaces text old new t c h in
          let result : t ++ edit_comment n ≡ out = cc (rw h at e) in
          omega (
            arith,
            edit_comment_long n,
            ap length whole,
            ap length made,
            ap length result,
            length-append t (edit_comment n),
            length-append before ((c ∷ old) ++ after),
            length-append (c ∷ old) after,
            length-append before (new ++ after),
            length-append new after,
          )
    ]

body_longer :
    (project : Project) (n : ℕ) (text out : Text)
    → replaced n (body_edit project) text ≡ ok out
    → length text < length out
unfolding body_edit
body_longer Project.commons_lang n text out e = replaced_longer n _ _ _ text out (omega arith) e
body_longer Project.kotlin_builder n text out e = replaced_longer n _ _ _ text out (omega arith) e

added_member_long :
    (project : Project) (scenario : Scenario) (n : ℕ) → 0 < length (added_member project scenario n)
unfolding added_member
added_member_long Project.commons_lang scenario n =
    omega (arith, length-append (visibility scenario) _)
added_member_long Project.kotlin_builder scenario n =
    omega (arith, length-append (visibility scenario) _)

ok_injective : (s t : Text) → ◌≡◌ {A = Result EditError Text} (ok s) (ok t) → s ≡ t
ok_injective s t e = cc

pub main_edit_longer :
    (project : Project) (scenario : Scenario) (n : ℕ) (text out : Text)
    → main_edit project scenario n text ≡ ok out
    → length text < length out
unfolding main_edit
main_edit_longer project Scenario.comment n text out e = omega (
  arith,
  edit_comment_long n,
  length-append text (edit_comment n),
  ap length (ok_injective (text ++ edit_comment n) out e),
)
main_edit_longer project Scenario.body n text out e = body_longer project n text out e
main_edit_longer project Scenario.multi_file_body n text out e = body_longer project n text out e
main_edit_longer project scenario n text out e = omega (
  arith,
  added_member_long project scenario n,
  ap length (ok_injective (insert_before_last b'}' (added_member project scenario n) text) out e),
  length-insert_before_last b'}' (added_member project scenario n) text,
)

pub edited-IsLonger :
    (sources : Sources) (name : Text) (edit : Text → Result EditError Text) (w : SourcePath × Text)
    → ((text out : Text) → edit text ≡ ok out → length text < length out)
    → edited sources name edit ≡ ok w
    → IsLonger sources w
edited-IsLonger sources name edit w longer e =
    let (text, found, made) = edited_parts sources name edit w e in
    let named = by_name-name sources name w.0 text found in
    (text, ap (by_name sources) named ∙ found, longer text w.1 made)
