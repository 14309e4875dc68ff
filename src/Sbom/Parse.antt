-- ===== src/Sbom/Parse.antt =====
-- tools/sbom_enrich.py: the regular expression `_BAZEL_DEP` and `parse_bazel_deps`. Each repetition
-- of the expression is followed by a character that it cannot take, so it never backtracks.
pub mod Tokens
pub mod Laws
use rules_elide.Prelude.{
  ℕ, zero, suc, Bool, ◌&&◌, ◌||◌, List, [], ◌∷◌, ◌++◌, Option, none, some, length, leb, ◌==◌,
  if◌then◌else◌,
}
use rules_elide.Prelude.Text.{Text, codes, strip}

infixl 5 ◌>>=◌
abbrev ◌>>=◌ {ℓ κ} : {A : Type ℓ} {B : Type κ} → Option A → (A → Option B) → Option B
none >>= f = none
some a >>= f = f a

abbrev within : ℕ → ℕ → ℕ → Bool
within first last c = leb first c && leb c last

-- `\s`: the white space of Unicode, as Python's `re` reads it.
unfoldable pub is_space : ℕ → Bool
is_space c =
    within 9 13 c
    || within 28 32 c
    || c == 133
    || c == 160
    || c == 5760
    || within 8192 8202 c
    || c == 8232
    || c == 8233
    || c == 8239
    || c == 8287
    || c == 12288

-- `\s*`
unfoldable pub skip_spaces : Text → Text
skip_spaces [] = []
skip_spaces (c ∷ s) = let rest = skip_spaces s in if is_space c then rest else c ∷ s

abbrev before : ℕ → Text × Text → Text × Text
before c (taken, rest) = (c ∷ taken, rest)

-- `[^"]*"`: what stands before the next quote, and the text behind it.
unfoldable pub until_quote : Text → Option (Text × Text)
until_quote [] = none
until_quote (c ∷ s) =
    let more = (until_quote s >>= λ found. some (before c found)) in
    if c == b'"' then some ([], s) else more

abbrev pub some_taken : Text × Text → Option (Text × Text)
some_taken ([], rest) = none
some_taken (c ∷ taken, rest) = some (c ∷ taken, rest)

-- `"([^"]+)"`
unfoldable pub quoted : Text → Option (Text × Text)
quoted s = do rest ← strip (codes "\"") s; found ← until_quote rest; some_taken found

-- `\s*key\s*=\s*"([^"]+)"`: the group, and the text behind it.
unfoldable pub assignment : Text → Text → Option (Text × Text)
assignment key s = do
  s1 ← strip key (skip_spaces s)
  s2 ← strip (codes "=") (skip_spaces s1)
  quoted (skip_spaces s2)

-- A match at the front of the text: the two groups, and the text behind it.
unfoldable pub match_dep : Text → Option (Text × Text × Text)
match_dep s = do
  s1 ← strip (codes "bazel_dep(") s
  (name, s2) ← assignment (codes "name") s1
  s3 ← strip (codes ",") (skip_spaces s2)
  (version, s4) ← assignment (codes "version") s3
  some (name, version, s4)

-- `finditer`: the search goes on behind a match, and else one character further.
scan : ℕ → Text → List (Text × Text)
scan zero s = []
scan (suc fuel) [] = []
scan (suc fuel) (c ∷ s) = elim (match_dep (c ∷ s)) [
  | none ↦ scan fuel s
  | some (name, version, rest) ↦ (name, version) ∷ scan fuel rest
]

-- Each round takes a character at least.
unfoldable pub parse_bazel_deps : Text → List (Text × Text)
unfolding scan
parse_bazel_deps module_text = scan (length module_text) module_text
