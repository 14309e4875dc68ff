-- ===== src/Prelude/Dict.antt =====
-- Python's `dict` with text keys, as the list of its items in insertion order.
use mathlib.Core.Path.{◌≡◌, refl, ◌∙◌}
use mathlib.Core.Bool.{Bool}
use mathlib.Core.List.{List, [], ◌∷◌}
use mathlib.Core.Option.{Option, none, some}
use native.Mathlib.Omega.{arith}
use rules_elide.Prelude.Tests.{if◌then◌else◌}
use rules_elide.Prelude.Text.{Text, text_eq, text_eq_iff}

abbrev pub Dict {ℓ} : Type ℓ → Type ℓ
Dict V = List (Text × V)

module _ {ℓ} {V : Type ℓ} where
  -- `d.get(k)`
  unfoldable pub lookup : Text → Dict V → Option V
  lookup k [] = none
  lookup k ((j, v) ∷ d) = if text_eq j k then some v else lookup k d

  -- `d[k] = v`
  unfoldable pub insert : Text → V → Dict V → Dict V
  insert k v [] = (k, v) ∷ []
  insert k v ((j, w) ∷ d) = if text_eq j k then (j, v) ∷ d else (j, w) ∷ insert k v d

  -- `d.update(e)`
  unfoldable pub update : Dict V → Dict V → Dict V
  update d [] = d
  update d ((k, v) ∷ e) = update (insert k v d) e

  -- `{k: v for k, v in d.items() if keep(k)}`
  unfoldable pub filter_keys : (Text → Bool) → Dict V → Dict V
  filter_keys keep [] = []
  filter_keys keep ((k, v) ∷ d) =
      let rest = filter_keys keep d in if keep k then (k, v) ∷ rest else rest

  abbrev pub keys : Dict V → List Text
  keys [] = []
  keys ((k, v) ∷ d) = k ∷ keys d

  -- A real dict has each key once.
  abbrev pub NodupKeys : Dict V → Type ℓ
  NodupKeys [] = Unit
  NodupKeys ((k, v) ∷ d) = (lookup k d ≡ none) × NodupKeys d

  abbrev pub or_else : Option V → Option V → Option V
  or_else none o = o
  or_else (some v) o = some v

  pub lookup-cons :
      (k j : Text) (v : V) (d : Dict V)
      → lookup k ((j, v) ∷ d) ≡ (if text_eq j k then some v else lookup k d)
  unfolding lookup
  lookup-cons k j v d = refl

  pub lookup-insert :
      (k j : Text) (v : V) (d : Dict V)
      → lookup j (insert k v d) ≡ (if text_eq k j then some v else lookup j d)
  unfolding lookup insert
  lookup-insert k j v [] = refl
  lookup-insert k j v ((i, w) ∷ d) =
      ground (arith, text_eq_iff k j, text_eq_iff i k, text_eq_iff i j, lookup-insert k j v d)

  pub lookup-update :
      (k : Text) (d e : Dict V)
      → NodupKeys e
      → lookup k (update d e) ≡ or_else (lookup k e) (lookup k d)
  unfolding update
  lookup-update k d [] h = unfold lookup in refl
  lookup-update k d ((j, v) ∷ e) (fresh, h) =
      lookup-update k (insert j v d) e h
      ∙ ground (arith, text_eq_iff j k, lookup-insert j k v d, lookup-cons k j v e)

  pub lookup-filter_keys :
      (k : Text) (keep : Text → Bool) (d : Dict V)
      → lookup k (filter_keys keep d) ≡ (if keep k then lookup k d else none)
  unfolding filter_keys
  lookup-filter_keys k keep [] = unfold lookup in ground arith
  lookup-filter_keys k keep ((j, v) ∷ d) = ground (
    arith,
    text_eq_iff j k,
    lookup-filter_keys k keep d,
    lookup-cons k j v (filter_keys keep d),
    lookup-cons k j v d,
  )

  pub insert_again : (k : Text) (v : V) (d : Dict V) → insert k v (insert k v d) ≡ insert k v d
  unfolding insert
  insert_again k v [] = ground (arith, text_eq_iff k k)
  insert_again k v ((j, w) ∷ d) = ground (arith, text_eq_iff j k, insert_again k v d)
