-- ===== src/Sbom/Parse/Laws.antt =====
-- `parse_bazel_deps` finds the dependencies of any module text that declares them.
use rules_elide.Prelude.{
  ℕ, zero, suc, ◌≤◌, ◌≡◌, refl, ap, sym, ◌∙◌, true, List, [], ◌∷◌, ◌++◌, arith, none, some, length,
  All, map, Option-cases, inl, inr,
}
use rules_elide.Prelude.Text.{Text, codes, strip, mismatch, strip-append, strip-mismatch}
use rules_elide.Sbom.Parse.Tokens.{
  Starts, skip_spaces-append, IsValue, quote, quoted-quote, match_dep_shorter,
}
use rules_elide.Sbom.Parse.{
  is_space, skip_spaces, quoted, assignment, match_dep, scan, parse_bazel_deps,
}

-- The white space between the tokens of a declaration.
pub record Layout : Type 0 where
  pub before_name : Text
  pub after_name : Text
  pub before_value : Text
  pub after_value : Text
  pub before_version : Text
  pub after_version : Text
  pub before_number : Text

abbrev IsBlank : Text → Type 0
IsBlank = All (λ c. is_space c ≡ true)

pub record IsLaidOut (l : Layout) : Type 0 where
  pub before_name : IsBlank l.before_name
  pub after_name : IsBlank l.after_name
  pub before_value : IsBlank l.before_value
  pub after_value : IsBlank l.after_value
  pub before_version : IsBlank l.before_version
  pub after_version : IsBlank l.after_version
  pub before_number : IsBlank l.before_number

-- `bazel_dep(name = "…", version = "…"` with such white space, and what follows.
unfoldable pub declared : Layout → Text → Text → Text → Text
declared l name version rest =
    codes "bazel_dep("
    ++ (l.before_name
        ++ (codes "name"
            ++ (l.after_name
                ++ (codes "="
                    ++ (l.before_value
                        ++ (quote name
                            ++ (l.after_value
                                ++ (codes ","
                                    ++ (l.before_version
                                        ++ (codes "version"
                                            ++ (l.after_version
                                                ++ (codes "="
                                                    ++ (l.before_number
                                                        ++ (quote version ++ rest))))))))))))))

strip_behind :
    (blank pattern s : Text)
    → IsBlank blank
    → Starts (pattern ++ s)
    → strip pattern (skip_spaces (blank ++ (pattern ++ s))) ≡ some s
strip_behind blank pattern s h start =
    rw (skip_spaces-append blank (pattern ++ s) h start) (strip-append pattern s)

quoted_behind :
    (blank name s : Text)
    → IsBlank blank
    → IsValue name
    → quoted (skip_spaces (blank ++ (quote name ++ s))) ≡ some (name, s)
unfolding is_space
quoted_behind blank name s h value =
    rw (skip_spaces-append blank (quote name ++ s) h refl) (quoted-quote name s value)

match_dep-declared :
    (l : Layout) (name version rest : Text)
    → IsLaidOut l
    → IsValue name
    → IsValue version
    → match_dep (declared l name version rest) ≡ some (name, version, rest)
unfolding match_dep assignment declared is_space
match_dep-declared l name version rest laid hn hv = rw (
  strip-append (codes "bazel_dep(") _,
  strip_behind l.before_name (codes "name") _ laid.before_name refl,
  strip_behind l.after_name (codes "=") _ laid.after_name refl,
  quoted_behind l.before_value name _ laid.before_value hn,
  strip_behind l.after_value (codes ",") _ laid.after_value refl,
  strip_behind l.before_version (codes "version") _ laid.before_version refl,
  strip_behind l.after_version (codes "=") _ laid.after_version refl,
  quoted_behind l.before_number version _ laid.before_number hv,
)

scan_miss : (f c : ℕ) (s : Text) → match_dep (c ∷ s) ≡ none → scan (suc f) (c ∷ s) ≡ scan f s
unfolding scan
scan_miss f c s h = rw (h, scan)

scan_hit :
    (f c : ℕ) (s name version rest : Text)
    → match_dep (c ∷ s) ≡ some (name, version, rest)
    → scan (suc f) (c ∷ s) ≡ (name, version) ∷ scan f rest
unfolding scan
scan_hit f c s name version rest h = rw (h, scan)

-- Fuel beyond the length of the text changes nothing.
scan_fuel : (f g : ℕ) (s : Text) → length s ≤ f → length s ≤ g → scan f s ≡ scan g s
scan_fuel zero zero s hf hg = refl
scan_fuel zero (suc g) [] hf hg = unfold scan in refl
scan_fuel zero (suc g) (c ∷ s) hf hg = absurd (omega arith)
scan_fuel (suc f) zero [] hf hg = unfold scan in refl
scan_fuel (suc f) zero (c ∷ s) hf hg = absurd (omega arith)
scan_fuel (suc f) (suc g) [] hf hg = unfold scan in refl
scan_fuel (suc f) (suc g) (c ∷ s) hf hg = elim (Option-cases (match_dep (c ∷ s))) [
  | inl h ↦
      scan_miss f c s h ∙ scan_fuel f g s (omega arith) (omega arith) ∙ sym (scan_miss g c s h)
  | inr ((n, v, rest), h) ↦
      let less = match_dep_shorter (c ∷ s) n v rest h in
      scan_hit f c s n v rest h
      ∙ ap (λ t. (n, v) ∷ t) (scan_fuel f g rest (omega (arith, less)) (omega (arith, less)))
      ∙ sym (scan_hit g c s n v rest h)
]

-- Text in which no declaration begins, whatever follows it: each of its suffixes differs from
-- `bazel_dep(` at a place that it has.
abbrev pub IsQuiet : Text → Type 0
IsQuiet [] = Unit
IsQuiet (c ∷ s) = (mismatch (codes "bazel_dep(") (c ∷ s) ≡ true) × IsQuiet s

match_dep_quiet :
    (s rest : Text) → mismatch (codes "bazel_dep(") s ≡ true → match_dep (s ++ rest) ≡ none
unfolding match_dep
match_dep_quiet s rest h = rw (strip-mismatch (codes "bazel_dep(") s rest h)

parse-quiet :
    (quiet rest : Text) → IsQuiet quiet → parse_bazel_deps (quiet ++ rest) ≡ parse_bazel_deps rest
unfolding parse_bazel_deps
parse-quiet [] rest h = refl
parse-quiet (c ∷ quiet) rest (h, hs) =
    scan_miss (length (quiet ++ rest)) c (quiet ++ rest) (match_dep_quiet (c ∷ quiet) rest h)
    ∙ parse-quiet quiet rest hs

parse_hit :
    (s name version rest : Text)
    → match_dep s ≡ some (name, version, rest)
    → parse_bazel_deps s ≡ (name, version) ∷ parse_bazel_deps rest
unfolding parse_bazel_deps
parse_hit [] name version rest h = absurd (omega (arith, match_dep_shorter [] name version rest h))
parse_hit (c ∷ s) name version rest h =
    scan_hit (length s) c s name version rest h
    ∙ ap (λ t. (name, version) ∷ t)
        (scan_fuel (length s) (length rest) rest
          (omega (arith, match_dep_shorter (c ∷ s) name version rest h)) (omega arith))

-- A declaration with its white space, and the quiet text behind it.
pub record Declaration : Type 0 where
  pub layout : Layout
  pub name : Text
  pub version : Text
  pub behind : Text

pub record IsDeclaration (d : Declaration) : Type 0 where
  pub layout : IsLaidOut d.layout
  pub name : IsValue d.name
  pub version : IsValue d.version
  pub behind : IsQuiet d.behind

unfoldable pub join_declarations : List Declaration → Text
join_declarations [] = []
join_declarations (d ∷ ds) = declared d.layout d.name d.version (d.behind ++ join_declarations ds)

parse-join_declarations :
    (ds : List Declaration)
    → All IsDeclaration ds
    → parse_bazel_deps (join_declarations ds) ≡ map (λ (d : Declaration). (d.name, d.version)) ds
unfolding join_declarations
parse-join_declarations [] h = unfold parse_bazel_deps in refl
parse-join_declarations (d ∷ ds) (h, hs) =
    parse_hit _ d.name d.version (d.behind ++ join_declarations ds)
      (match_dep-declared d.layout d.name d.version _ h.layout h.name h.version)
    ∙ ap (λ t. (d.name, d.version) ∷ t)
        (parse-quiet d.behind (join_declarations ds) h.behind ∙ parse-join_declarations ds hs)

-- In a module file of declarations, laid out with any white space and with any text between them
-- in which no declaration begins, `parse_bazel_deps` finds the name and the version of each
-- declaration, in order, and nothing else.
pub parse_bazel_deps-join_declarations :
    (lead : Text) (ds : List Declaration)
    → IsQuiet lead
    → All IsDeclaration ds
    → parse_bazel_deps (lead ++ join_declarations ds)
      ≡ map (λ (d : Declaration). (d.name, d.version)) ds
parse_bazel_deps-join_declarations lead ds quiet h =
    parse-quiet lead (join_declarations ds) quiet ∙ parse-join_declarations ds h
