-- ===== src/Bench/Edit/Runs.antt =====
-- Whole runs of the two `mutate` functions.
use rules_elide.Prelude.{
  ℕ, ◌≤◌, ◌+◌, ◌≡◌, refl, inl, inr, List, [], ◌∷◌, arith, Bool-cases, Result, ok, err, length, All,
}
use rules_elide.Prelude.Text.{Text}
use rules_elide.Bench.Scenario.{Scenario, SourcePath, Sources, EditError}
use rules_elide.Bench.Edit.{
  Project, main_file, more_edits, replaced, main_edit, edited, Run, written, edit_more, further,
  is_edit, mutate,
}
use rules_elide.Bench.Edit.Laws.{IsLonger, replaced_longer, main_edit_longer, edited-IsLonger}

-- An edit that looks for a text, and puts in one that the comment makes longer.
IsGrowing : Text × Text × Text → Type 0
IsGrowing (name, [], new) = ⊥
IsGrowing (name, c ∷ old, new) = length (c ∷ old) ≤ length new + 18

written-IsLonger :
    (sources : Sources) (first : Result EditError (SourcePath × Text)) (rest : Run)
    → ((w : SourcePath × Text) → first ≡ ok w → IsLonger sources w)
    → All (IsLonger sources) rest.0
    → All (IsLonger sources) (written first rest).0
unfolding written
written-IsLonger sources (ok w) rest h hs = (h w refl, hs)
written-IsLonger sources (err e) rest h hs = tt

edit_more-IsLonger :
    (sources : Sources) (n : ℕ) (edits : List (Text × Text × Text))
    → All IsGrowing edits
    → All (IsLonger sources) (edit_more sources n edits).0
unfolding edit_more IsGrowing
edit_more-IsLonger sources n [] h = tt
edit_more-IsLonger sources n ((name, [], new) ∷ edits) (h, hs) = absurd h
edit_more-IsLonger sources n ((name, c ∷ old, new) ∷ edits) (h, hs) =
    written-IsLonger sources (edited sources name (replaced n (c ∷ old, new)))
      (edit_more sources n edits)
      (λ w.
        edited-IsLonger sources name (replaced n (c ∷ old, new)) w
          λ text out. replaced_longer n c old new text out h)
      (edit_more-IsLonger sources n edits hs)

more_edits_grow : (project : Project) → All IsGrowing (more_edits project)
unfolding more_edits IsGrowing
more_edits_grow Project.commons_lang = (omega arith, (omega arith, tt))
more_edits_grow Project.kotlin_builder = (omega arith, (omega arith, tt))

further-IsLonger :
    (project : Project) (sources : Sources) (scenario : Scenario) (n : ℕ)
    → All (IsLonger sources) (further project sources scenario n).0
unfolding further
further-IsLonger project sources Scenario.multi_file_body n =
    edit_more-IsLonger sources n (more_edits project) (more_edits_grow project)
further-IsLonger project sources scenario n = tt

-- Whatever the scenario and whether or not it fails, each text that a run writes stands at the path
-- that the snapshot has under its name, and is longer than the text there.
mutate-IsLonger :
    (project : Project) (sources : Sources) (scenario : Scenario) (n : ℕ)
    → All (IsLonger sources) (mutate project sources scenario n).0
unfolding mutate
mutate-IsLonger project sources scenario n = elim (Bool-cases (is_edit scenario)) [
  | inl h ↦ rw h (
      written-IsLonger sources
        (edited sources (main_file project scenario) (main_edit project scenario n))
        (further project sources scenario n)
        (λ w.
          edited-IsLonger sources (main_file project scenario) (main_edit project scenario n) w
            (main_edit_longer project scenario n))
        (further-IsLonger project sources scenario n))
  | inr h ↦ rw h tt
]
