-- ===== src/Deep/Graph.antt =====
-- benchmarks/deepgraph/gen.py: the dependencies between the modules, and the number of sources.
use rules_elide.Prelude.{
  ℕ, zero, suc, ◌+◌, ◌-◌, ◌*◌, ◌≤◌, ◌≡◌, refl, subst, true, false, Bool, ◌||◌, List, [], ◌∷◌, ◌++◌,
  All, arith, length, length-append,
}
use rules_elide.Prelude.Text.{Text, codes, text_eq, text_eq_iff}
use rules_elide.Deep.{
  Language, Module, label, core_files, core_base, core_module, leaf_files, prev_deps, layer_module,
  layers_from, last_layer, app_module, gen_lang, printed_total,
}

is_known : Language → List Module → Text → Bool
is_known language [] d = false
is_known language (m ∷ ms) d = text_eq d (label language m.folder) || is_known language ms d

-- Each module depends on modules before it alone, `known` being before all of them.
pub IsAcyclic : Language → List Module → List Module → Type 0
IsAcyclic language known [] = Unit
IsAcyclic language known (m ∷ ms) =
    All (λ d. is_known language known d ≡ true) m.deps × IsAcyclic language (m ∷ known) ms

is_known-cons :
    (language : Language) (m : Module) (known : List Module) (d : Text)
    → is_known language known d ≡ true
    → is_known language (m ∷ known) d ≡ true
unfolding is_known
is_known-cons language m known d h = ground (arith, h)

is_known_self :
    (language : Language) (m : Module) (known : List Module)
    → is_known language (m ∷ known) (label language m.folder) ≡ true
unfolding is_known
is_known_self language m known =
    ground (arith, text_eq_iff (label language m.folder) (label language m.folder))

app_deps :
    (language : Language) (i : ℕ) (known : List Module)
    → All (λ d. is_known language known d ≡ true) (prev_deps language (suc i))
    → IsAcyclic language known (app_module language (suc i) ∷ [])
unfolding app_module prev_deps IsAcyclic last_layer
app_deps language i known prev = (prev, tt)

next_deps :
    (language : Language) (width i : ℕ) (known : List Module)
    → All
        (λ d. is_known language (layer_module language width i ∷ known) d ≡ true)
        (prev_deps language (suc i))
unfolding prev_deps layer_module
next_deps language width i known =
    (is_known_self language (layer_module language width i) known, tt)

-- The layers from `i` on and the app, behind a core and the module before.
layers-IsAcyclic :
    (language : Language) (width layers i n : ℕ) (known : List Module)
    → layers + i ≡ suc n
    → is_known language known (label language (codes "core")) ≡ true
    → All (λ d. is_known language known d ≡ true) (prev_deps language i)
    → IsAcyclic language known
        (layers_from language width i layers ++ app_module language (suc n) ∷ [])
unfolding layers_from IsAcyclic
layers-IsAcyclic language width zero i n known last core prev =
    let here : i ≡ suc n = omega arith in
    app_deps language n known
      (subst (λ j. All (λ d. is_known language known d ≡ true) (prev_deps language j)) here prev)
layers-IsAcyclic language width (suc layers) i n known last core prev = (
  layer_deps language width i known core prev,
  layers-IsAcyclic language width layers (suc i) n (layer_module language width i ∷ known)
      (omega arith) (is_known-cons language (layer_module language width i) known _ core)
      (next_deps language width i known),
)
  where
    layer_deps :
        (language : Language) (width i : ℕ) (known : List Module)
        → is_known language known (label language (codes "core")) ≡ true
        → All (λ d. is_known language known d ≡ true) (prev_deps language i)
        → All (λ d. is_known language known d ≡ true) (layer_module language width i).deps
    layer_deps language width i known core prev = unfold layer_module in (core, prev)

-- With one layer or more, each module depends on modules generated before it alone, whatever the
-- width and in both languages.
gen_lang-IsAcyclic :
    (language : Language) (layers width : ℕ)
    → 1 ≤ layers
    → IsAcyclic language [] (gen_lang language layers width)
unfolding gen_lang IsAcyclic
gen_lang-IsAcyclic language zero width h = absurd (omega arith)
gen_lang-IsAcyclic language (suc layers) width h = (
  core_deps language width,
  layers-IsAcyclic language width (suc layers) 0 layers (core_module language width ∷ [])
      (omega arith) (core_known language width) (first_deps language width),
)
  where
    core_deps :
        (language : Language) (width : ℕ)
        → All (λ d. is_known language [] d ≡ true) (core_module language width).deps
    core_deps language width = unfold core_module in tt

    core_known :
        (language : Language) (width : ℕ)
        → is_known language (core_module language width ∷ []) (label language (codes "core")) ≡ true
    core_known language width =
        unfold core_module in is_known_self language (core_module language width) []

    first_deps :
        (language : Language) (width : ℕ)
        → All
            (λ d. is_known language (core_module language width ∷ []) d ≡ true)
            (prev_deps language 0)
    first_deps language width = unfold prev_deps in tt

-- The sources of the modules, without the BUILD files.
count_files : List Module → ℕ
count_files [] = 0
count_files (m ∷ ms) = length m.files + count_files ms

count_files-append :
    (ms ns : List Module) → count_files (ms ++ ns) ≡ count_files ms + count_files ns
unfolding count_files
count_files-append [] ns = omega arith
count_files-append (m ∷ ms) ns = omega (arith, count_files-append ms ns)

length-core_files :
    (language : Language) (k width : ℕ) → length (core_files language k width) ≡ width
unfolding core_files
length-core_files language k zero = refl
length-core_files language k (suc width) = omega (arith, length-core_files language (k + 1) width)

length-leaf_files :
    (language : Language) (i width j left : ℕ) → length (leaf_files language i width j left) ≡ left
unfolding leaf_files
length-leaf_files language i width j zero = refl
length-leaf_files language i width j (suc left) =
    omega (arith, length-leaf_files language i width (j + 1) left)

length-layer_module :
    (language : Language) (width i : ℕ)
    → 1 ≤ width
    → length (layer_module language width i).files ≡ width
unfolding layer_module
length-layer_module language width i h =
    omega (arith, length-leaf_files language i width 1 (width - 1))

count_files-layers_from :
    (language : Language) (width i layers : ℕ)
    → 1 ≤ width
    → count_files (layers_from language width i layers) ≡ layers * width
unfolding count_files layers_from
count_files-layers_from language width i zero h = omega arith
count_files-layers_from language width i (suc layers) h = omega (
  arith,
  length-layer_module language width i h,
  count_files-layers_from language width (suc i) layers h,
)

length-core_module :
    (language : Language) (width : ℕ)
    → length (core_module language width).files ≡ length (core_base language) + width
unfolding core_module
length-core_module language width = omega (
  arith,
  length-append (core_base language) (core_files language 0 width),
  length-core_files language 0 width,
)

-- With a width of one or more, the sources are those that `main` counts, and the core's own beside
-- its numbered files: one in Kotlin, four in Java.
count_files-gen_lang :
    (language : Language) (layers width : ℕ)
    → 1 ≤ width
    → count_files (gen_lang language layers width)
      ≡ printed_total layers width + length (core_base language)
unfolding count_files gen_lang printed_total
count_files-gen_lang language layers width h = omega (
  arith,
  length-core_module language width,
  count_files-append (layers_from language width 0 layers) (app_module language layers ∷ []),
  count_files-layers_from language width 0 layers h,
  one_app language layers,
)
  where
    one_app : (language : Language) (layers : ℕ) → count_files (app_module language layers ∷ []) ≡ 1
    one_app language layers = unfold app_module count_files in omega arith
