-- ===== src/Release/Extension/Collect.antt =====
-- elide/extensions.bzl: what `_elide_impl` collects from the tags of all modules.
use rules_elide.Prelude.{
  ◌≡◌, refl, sym, ap, ◌∙◌, Bool, true, false, ◌||◌, List, [], ◌∷◌, ◌++◌, append-nil, append_assoc,
  Option, none, some, map, if◌then◌else◌,
}
use rules_elide.Prelude.Text.{Text}
use rules_elide.Release.Semver.{last}
use rules_elide.Release.Extension.Tags.{InstallTag, UseTag, Module}
use rules_elide.Release.Extension.Install.{
  Settings, add_install, add_installs, add_uses, add_module, collect, initial,
}

-- The versions of the install tags of all modules.
abbrev pub all_versions : List Module → List Text
all_versions [] = []
all_versions (m ∷ ms) = map (λ (t : InstallTag). t.version) m.install ++ all_versions ms

abbrev pub any_python : List InstallTag → Bool
any_python [] = false
any_python (t ∷ ts) = t.python || any_python ts

-- Some install tag of some module asks for Python.
abbrev pub asks_python : List Module → Bool
asks_python [] = false
asks_python (m ∷ ms) = any_python m.install || asks_python ms

-- The use tags of the root module.
abbrev pub root_uses : List Module → List UseTag
root_uses [] = []
root_uses (m ∷ ms) = (if m.is_root then m.use_tags else []) ++ root_uses ms

pub or_last : Option UseTag → List UseTag → Option UseTag
or_last o [] = o
or_last o (t ∷ ts) = or_last (some t) ts

or_last-append :
    (o : Option UseTag) (ts us : List UseTag) → or_last o (ts ++ us) ≡ or_last (or_last o ts) us
unfolding or_last
or_last-append o [] us = refl
or_last-append o (t ∷ ts) us = or_last-append (some t) ts us

-- The three of the settings that do not depend on the root alone, after more tags.
abbrev pub Collects : Settings → Settings → List Text → Bool → List UseTag → Type 0
Collects before after versions python uses =
    (after.versions ≡ before.versions ++ versions)
    × (after.python ≡ (before.python || python))
    × (after.use_tag ≡ or_last before.use_tag uses)

add_install-Collects :
    (is_root : Bool) (s : Settings) (t : InstallTag)
    → Collects s (add_install is_root s t) (t.version ∷ []) t.python []
unfolding add_install or_last
add_install-Collects true s t = (refl, refl, refl)
add_install-Collects false s t = (refl, refl, refl)

or_assoc : (a b c : Bool) → ((a || b) || c) ≡ (a || (b || c))
or_assoc true b c = refl
or_assoc false b c = refl

or_false : (a : Bool) → a ≡ (a || false)
or_false true = refl
or_false false = refl

Collects-trans :
    (s t u : Settings) (vs ws : List Text) (p q : Bool) (ts us : List UseTag)
    → Collects s t vs p ts
    → Collects t u ws q us
    → Collects s u (vs ++ ws) (p || q) (ts ++ us)
Collects-trans s t u vs ws p q ts us (v, b, o) (v', b', o') = (
  v' ∙ ap (λ xs. xs ++ ws) v ∙ append_assoc s.versions vs ws,
  b' ∙ ap (λ x. x || q) b ∙ or_assoc s.python p q,
  o' ∙ ap (λ x. or_last x us) o ∙ sym (or_last-append s.use_tag ts us),
)

Collects-refl : (s : Settings) → Collects s s [] false []
unfolding or_last
Collects-refl s = (sym (append-nil s.versions), or_false s.python, refl)

add_installs-Collects :
    (is_root : Bool) (s : Settings) (ts : List InstallTag)
    → Collects s
        (add_installs is_root s ts)
        (map (λ (t : InstallTag). t.version) ts)
        (any_python ts)
        []
unfolding add_installs
add_installs-Collects is_root s [] = Collects-refl s
add_installs-Collects is_root s (t ∷ ts) =
    Collects-trans s (add_install is_root s t) (add_installs is_root (add_install is_root s t) ts)
      (t.version ∷ []) (map (λ (u : InstallTag). u.version) ts) t.python (any_python ts) [] []
      (add_install-Collects is_root s t)
      (add_installs-Collects is_root (add_install is_root s t) ts)

add_uses-Collects : (s : Settings) (ts : List UseTag) → Collects s (add_uses s ts) [] false ts
unfolding add_uses or_last
add_uses-Collects s [] = Collects-refl s
add_uses-Collects s (t ∷ ts) =
    let (v, b, o) = add_uses-Collects (record s { use_tag = some t }) ts in (v, b, o)

Collects-end :
    (s t : Settings) (vs : List Text) (p : Bool) (ts : List UseTag)
    → Collects s t (vs ++ []) (p || false) ([] ++ ts)
    → Collects s t vs p ts
Collects-end s t vs p ts (v, b, o) = (
  v ∙ ap (λ xs. s.versions ++ xs) (append-nil vs),
  b ∙ ap (λ x. s.python || x) (sym (or_false p)),
  o,
)

by_root :
    (root : Bool) (s : Settings) (tags : List InstallTag) (uses : List UseTag)
    → Collects s
        (if root then add_uses (add_installs root s tags) uses else add_installs root s tags)
        (map (λ (t : InstallTag). t.version) tags)
        (any_python tags)
        (if root then uses else [])
by_root false s tags uses = add_installs-Collects false s tags
by_root true s tags uses =
    let installed = add_installs true s tags in
    let versions = map (λ (t : InstallTag). t.version) tags in
    Collects-end s (add_uses installed uses) versions (any_python tags) uses (
      Collects-trans s installed (add_uses installed uses) versions [] (any_python tags) false []
        uses (add_installs-Collects true s tags) (add_uses-Collects installed uses))

add_module-Collects :
    (s : Settings) (m : Module)
    → Collects s
        (add_module s m)
        (map (λ (t : InstallTag). t.version) m.install)
        (any_python m.install)
        (if m.is_root then m.use_tags else [])
unfolding add_module
add_module-Collects s m = by_root m.is_root s m.install m.use_tags

pub collect-Collects :
    (s : Settings) (ms : List Module)
    → Collects s (collect s ms) (all_versions ms) (asks_python ms) (root_uses ms)
unfolding collect
collect-Collects s [] = Collects-refl s
collect-Collects s (m ∷ ms) =
    Collects-trans s (add_module s m) (collect (add_module s m) ms) _ (all_versions ms) _
      (asks_python ms) _ (root_uses ms) (add_module-Collects s m)
      (collect-Collects (add_module s m) ms)

or_last-last :
    (o : Option UseTag) (t : UseTag) (ts : List UseTag) → or_last o (t ∷ ts) ≡ last (t ∷ ts)
unfolding or_last
or_last-last o t [] = refl
or_last-last o t (u ∷ ts) = or_last-last (some t) u ts

-- The last use tag of the root module, if it has one.
pub collect-use_tag : (ms : List Module) → (collect initial ms).use_tag ≡ last (root_uses ms)
collect-use_tag ms = (collect-Collects initial ms).2 ∙ from_none (root_uses ms)
  where
    from_none : (ts : List UseTag) → or_last none ts ≡ last ts
    from_none [] = unfold or_last in refl
    from_none (t ∷ ts) = or_last-last none t ts

pub collect-versions : (ms : List Module) → (collect initial ms).versions ≡ all_versions ms
collect-versions ms = (collect-Collects initial ms).0

pub collect-python : (ms : List Module) → (collect initial ms).python ≡ asks_python ms
collect-python ms = (collect-Collects initial ms).1
