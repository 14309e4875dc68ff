-- ===== src/Worker/Signature/Classpath.antt =====
-- elide/private/ic_worker/IncrementalWorker.java: the inputs that `signature` leaves to the compiler,
-- described by the argument that names them.
mod Entries
mod Behind
use rules_elide.Prelude.{
  Bool, ℕ, suc, ◌+◌, ◌≡◌, ◌≢◌, ◌⊎◌, ◌↔◌, ◌∙◌, refl, ap, sym, subst, true, false, ◌||◌, List, [],
  ◌∷◌, ◌++◌, append_assoc, append-nil, none, some, drop, arith, All, Bool-cases, Option-cases, inl,
  inr, ◌==◌, length,
}
use rules_elide.Prelude.Text.{Text, codes, text_eq, text_eq_iff, starts_with, ends_with, has_text}
use rules_elide.Worker.Signature.Classpath.Entries.{IsEntry, split_path-IsEntry, IsEntry-split_path}
use rules_elide.Worker.Signature.Classpath.Behind.{
  IsBehind, tail_of, tail_of-IsBehind, IsBehind-tail_of,
}
use rules_elide.Worker.Messages.{Input}
use rules_elide.Worker.Signature.{
  index_of, any_text, is_conservative, split_path, jars, classpath_jars, classpath,
  is_tracked_natively,
}

-- An argument of a plugin, a compiler plugin or friend modules.
abbrev pub IsConservative : Text → Type 0
IsConservative arg =
    (starts_with arg (codes "-Xplugin") ≡ true)
    ⊎ (starts_with arg (codes "-Xcompiler-plugin") ≡ true)
    ⊎ (arg ≡ codes "-P")
    ⊎ (starts_with arg (codes "-P=") ≡ true)
    ⊎ (starts_with arg (codes "-Xfriend-paths") ≡ true)
    ⊎ (arg ≡ codes "--plugins")
    ⊎ (starts_with arg (codes "--plugins=") ≡ true)

abbrev pub IsFlag : Text → Type 0
IsFlag a = (a ≡ codes "-classpath") ⊎ (a ≡ codes "-cp")

-- An entry of an argument that follows a flag of the class path.
abbrev pub IsListed : Text → List Text → Type 0
IsListed entry [] = ⊥
IsListed entry (a ∷ []) = ⊥
IsListed entry (a ∷ b ∷ rest) =
    (IsFlag a × (IsEntry entry b ⊎ IsListed entry rest))
    ⊎ ((¬ IsFlag a) × IsListed entry (b ∷ rest))

-- An ordinary jar of the class path, where no argument is conservative.
abbrev pub IsOrdinaryJar : List Text → Text → Type 0
IsOrdinaryJar arguments entry =
    All (λ a. ¬ IsConservative a) arguments
    × (ends_with entry (codes ".jar") ≡ true)
    × (rest : List Text) × IsBehind arguments rest
    × IsListed entry rest

-- A source or an ordinary jar of the class path.
abbrev pub IsTracked : List Text → Text → Type 0
IsTracked arguments path =
    (ends_with path (codes ".kt") ≡ true)
    ⊎ (ends_with path (codes ".java") ≡ true)
    ⊎ IsOrdinaryJar arguments path

is_conservative_iff : (arg : Text) → (is_conservative arg ≡ true) ↔ IsConservative arg
unfolding is_conservative
is_conservative_iff arg =
    ground (arith, text_eq_iff arg (codes "-P"), text_eq_iff arg (codes "--plugins"))

any-IsConservative_iff :
    (args : List Text)
    → (any_text is_conservative args ≡ false) ↔ All (λ a. ¬ IsConservative a) args
unfolding any_text
any-IsConservative_iff [] = ground arith
any-IsConservative_iff (a ∷ args) = (
  λ e. (
    λ c. ground (arith, e, (is_conservative_iff a).1 c),
    (any-IsConservative_iff args).0 (ground (arith, e)),
  ),
  λ (h, hs). joined h ((any-IsConservative_iff args).1 hs),
)
  where
    joined :
        (¬ IsConservative a)
        → any_text is_conservative args ≡ false
        → (is_conservative a || any_text is_conservative args) ≡ false
    joined h k = elim (Bool-cases (is_conservative a)) [
      | inl c ↦ absurd (h ((is_conservative_iff a).0 c))
      | inr other ↦ ground (arith, other, k)
    ]

has_text-append :
    (s : Text) (xs ys : List Text) → has_text s (xs ++ ys) ≡ (has_text s xs || has_text s ys)
unfolding has_text
has_text-append s [] ys = refl
has_text-append s (x ∷ xs) ys = ground (arith, has_text-append s xs ys)

has_text-jars :
    (s : Text) (xs : List Text)
    → (has_text s (jars xs) ≡ true) ↔ ((has_text s xs ≡ true) × (ends_with s (codes ".jar") ≡ true))
unfolding has_text jars
has_text-jars s [] = ground arith
has_text-jars s (x ∷ xs) = elim (Bool-cases (text_eq x s)) [
  | inl same ↦
      let also = ap (λ y. ends_with y (codes ".jar")) ((text_eq_iff x s).0 same) in
      elim (Bool-cases (ends_with x (codes ".jar"))) [
        | inl jar ↦ ground (arith, jar, same, also, has_text-jars s xs)
        | inr other ↦ ground (arith, other, same, also, has_text-jars s xs)
      ]
  | inr differs ↦ elim (Bool-cases (ends_with x (codes ".jar"))) [
    | inl jar ↦ ground (arith, jar, differs, has_text-jars s xs)
    | inr other ↦ ground (arith, other, differs, has_text-jars s xs)
  ]
]

IsFlag-iff :
    (a : Text) → ((text_eq a (codes "-classpath") || text_eq a (codes "-cp")) ≡ true) ↔ IsFlag a
IsFlag-iff a = ground (arith, text_eq_iff a (codes "-classpath"), text_eq_iff a (codes "-cp"))

listed_jars_iff :
    (entry path : Text)
    → (has_text entry (jars (split_path [] path)) ≡ true)
      ↔ (IsEntry entry path × (ends_with entry (codes ".jar") ≡ true))
listed_jars_iff entry path =
    let (found, found') = has_text-jars entry (split_path [] path) in
    (
      λ h. (split_path-IsEntry entry [] path tt (found h).0, (found h).1),
      λ (inside, jar). found' (IsEntry-split_path entry path inside, jar),
    )

flag_iff {ℓ κ μ ν} :
    {P : Type ℓ} {Q : Type κ} {R : Type μ} {F : Type ν} (x y jar : Bool)
    → F
    → (x ≡ true) ↔ (P × (jar ≡ true))
    → (y ≡ true) ↔ (Q × (jar ≡ true))
    → (x || y ≡ true) ↔ (((F × (P ⊎ Q)) ⊎ ((¬ F) × R)) × (jar ≡ true))
flag_iff x y jar f p q = ground (arith, p, q)

no_flag_iff {ℓ κ ν} :
    {P : Type ℓ} {R : Type κ} {F : Type ν} (y jar : Bool)
    → (¬ F)
    → (y ≡ true) ↔ (R × (jar ≡ true))
    → (y ≡ true) ↔ (((F × P) ⊎ ((¬ F) × R)) × (jar ≡ true))
no_flag_iff y jar f r = ground (arith, r)

-- The jars of the class path are its entries that end in `.jar`.
classpath_jars_iff :
    (entry : Text) (args : List Text)
    → (has_text entry (classpath_jars args) ≡ true)
      ↔ (IsListed entry args × (ends_with entry (codes ".jar") ≡ true))
unfolding classpath_jars has_text
classpath_jars_iff entry [] = ground arith
classpath_jars_iff entry (a ∷ []) = ground arith
classpath_jars_iff entry (a ∷ b ∷ rest) =
    elim (Bool-cases (text_eq a (codes "-classpath") || text_eq a (codes "-cp"))) [
      | inl flag ↦
          let found = has_text-append entry (jars (split_path [] b)) (classpath_jars rest) in
          rw (flag, found)
            (flag_iff _ _ (ends_with entry (codes ".jar")) ((IsFlag-iff a).0 flag)
              (listed_jars_iff entry b) (classpath_jars_iff entry rest))
      | inr other ↦ rw other (
          no_flag_iff _ (ends_with entry (codes ".jar"))
            (λ f. ground (arith, other, (IsFlag-iff a).1 f)) (classpath_jars_iff entry (b ∷ rest)))
    ]

classpath_plain :
    (args : List Text)
    → any_text is_conservative args ≡ false
    → classpath args ≡ classpath_jars (tail_of args)
unfolding classpath tail_of
classpath_plain args h = elim (Option-cases (index_of (codes "--") args)) [
  | inl k ↦ rw (h, k, classpath, tail_of) refl
  | inr (i, k) ↦ rw (h, k, classpath, tail_of) refl
]

classpath_conservative :
    (args : List Text) → any_text is_conservative args ≡ true → classpath args ≡ []
unfolding classpath
classpath_conservative args h = rw h refl

classpath_iff :
    (args : List Text) (entry : Text)
    → (has_text entry (classpath args) ≡ true) ↔ IsOrdinaryJar args entry
unfolding has_text
classpath_iff args entry = elim (Bool-cases (any_text is_conservative args)) [
  | inl h ↦ (
    λ e. cc (sym (ap (has_text entry) (classpath_conservative args h)) ∙ e),
    λ (plain, jar, rest, behind, there). cc (h, (any-IsConservative_iff args).1 plain),
  )
  | inr h ↦
      let same = ap (has_text entry) (classpath_plain args h) in
      let (listed, listed') = classpath_jars_iff entry (tail_of args) in
      (
        λ e.
            let (there, jar) = listed (sym same ∙ e) in
            ((any-IsConservative_iff args).0 h, jar, tail_of args, tail_of-IsBehind args, there),
        λ (plain, jar, rest, behind, there).
            same ∙ listed' (subst (IsListed entry) (IsBehind-tail_of args rest behind) there, jar),
      )
]

-- An input is left out of the signature exactly if it is a source or an ordinary jar.
pub is_tracked_natively_iff :
    (args : List Text) (input : Input)
    → (is_tracked_natively (classpath args) input ≡ true) ↔ IsTracked args input.path
unfolding is_tracked_natively
is_tracked_natively_iff args input = ground (arith, classpath_iff args input.path)
