-- ===== src/Partial/Merge.antt =====
-- benchmarks/java_partial_compile.py: the class files of a partial compile merged into those of the
-- last full one, and the comparison with a fresh full compile. An archive is its items.
pub mod Laws
use rules_elide.Prelude.{
  ℕ, Bool, true, false, not, ◌||◌, List, [], ◌∷◌, ◌++◌, Option, none, some, if◌then◌else◌,
}
use rules_elide.Prelude.Text.{Text, codes, text_eq, starts_with, ends_with, sorted_set}
use rules_elide.Prelude.Dict.{Dict, lookup, update, filter_keys, keys}

abbrev pub Classes : Type 0
Classes = Dict (List ℕ)

-- `classes(path)`, of the entries of the archive.
unfoldable pub classes : Classes → Classes
classes = filter_keys (λ name. ends_with name (codes ".class"))

-- `any(name == prefix + ".class" or name.startswith(prefix + "$") for prefix in prefixes)`
unfoldable pub is_owned : List Text → Text → Bool
is_owned [] name = false
is_owned (prefix ∷ prefixes) name =
    (text_eq name (prefix ++ codes ".class") || starts_with name (prefix ++ codes "$"))
    || is_owned prefixes name

-- The classes of the baseline that no changed source owns, updated by the partial compile.
unfoldable pub merged : List Text → Classes → Classes → Classes
merged prefixes baseline partial =
    update (filter_keys (λ name. not (is_owned prefixes name)) baseline) partial

same_contents : Option (List ℕ) → Option (List ℕ) → Bool
same_contents none none = true
same_contents none (some b) = false
same_contents (some a) none = false
same_contents (some a) (some b) = text_eq a b

-- The names at which the two differ, of a list of names.
differing : Classes → Classes → List Text → List Text
differing a b [] = []
differing a b (name ∷ names) =
    let rest = differing a b names in
    if same_contents (lookup name a) (lookup name b) then rest else name ∷ rest

unfoldable pub differences : Classes → Classes → List Text
unfolding differing same_contents
differences a b = sorted_set (differing a b (keys a ++ keys b))

-- `boundary_probes`: the names that a merge by file names keeps and a fresh compile lacks.
absent_from : Classes → List Text → List Text
absent_from current [] = []
absent_from current (name ∷ names) =
    let rest = absent_from current names in
    elim (lookup name current) [ none ↦ name ∷ rest | some contents ↦ rest ]

unfoldable pub stale : List Text → Classes → Classes → List Text
unfolding absent_from
stale prefixes before after = sorted_set (absent_from after (keys (merged prefixes before after)))
