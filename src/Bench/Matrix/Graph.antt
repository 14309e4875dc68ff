-- ===== src/Bench/Matrix/Graph.antt =====
-- benchmarks/incremental_matrix.py: the target graph of `fixture`.
use rules_elide.Prelude.{
  ℕ, zero, suc, ◌+◌, ◌≡◌, refl, true, false, Bool, ◌&&◌, ◌||◌, List, [], ◌∷◌, ◌++◌, All, arith,
}
use rules_elide.Prelude.Text.{Text, codes, text_eq, text_eq_iff}
use rules_elide.Prelude.Decimal.{decimal}
use rules_elide.Bench.Matrix.{
  Language, Target, client, clients, client_labels, targets, core_target, spare_target,
  facade_target, app_target,
}

-- A label of the target: `//package:name`, or `//package` where the two are the same.
unfoldable pub is_label : Text → Target → Bool
is_label label t =
    text_eq label (codes "//" ++ (t.package_name ++ (codes ":" ++ t.name)))
    || (text_eq t.name t.package_name && text_eq label (codes "//" ++ t.package_name))

unfoldable pub is_known : List Target → Text → Bool
is_known [] label = false
is_known (t ∷ ts) label = is_label label t || is_known ts label

-- Each target depends on labels of targets before it alone, `known` being before all of them.
abbrev pub IsAcyclic : List Target → List Target → Type 0
IsAcyclic known [] = Unit
IsAcyclic known (t ∷ ts) = All (λ d. is_known known d ≡ true) t.deps × IsAcyclic (t ∷ known) ts

known_after : List Target → List Target → List Target
known_after known [] = known
known_after known (t ∷ ts) = known_after (t ∷ known) ts

IsAcyclic-append :
    (known ts us : List Target)
    → IsAcyclic known ts
    → IsAcyclic (known_after known ts) us
    → IsAcyclic known (ts ++ us)
unfolding known_after
IsAcyclic-append known [] us h k = k
IsAcyclic-append known (t ∷ ts) us (h, hs) k = (h, IsAcyclic-append (t ∷ known) ts us hs k)

is_known-cons :
    (t : Target) (known : List Target) (d : Text)
    → is_known known d ≡ true
    → is_known (t ∷ known) d ≡ true
unfolding is_known
is_known-cons t known d h = ground (arith, h)

is_known-known_after :
    (known ts : List Target) (d : Text)
    → is_known known d ≡ true
    → is_known (known_after known ts) d ≡ true
unfolding known_after
is_known-known_after known [] d h = h
is_known-known_after known (t ∷ ts) d h =
    is_known-known_after (t ∷ known) ts d (is_known-cons t known d h)

client_target : ℕ → Target
client_target i = record {
  package_name = codes "clients";
  name = client i;
  classes = (codes "Client" ++ decimal i, codes "facade.Facade.value()") ∷ [];
  deps = codes "//facade" ∷ [];
}

clients-IsAcyclic :
    (known : List Target) (i fanout : ℕ)
    → is_known known (codes "//facade") ≡ true
    → IsAcyclic known (clients i fanout)
unfolding clients client_target
clients-IsAcyclic known i zero h = tt
clients-IsAcyclic known i (suc fanout) h = (
  (h, tt),
  clients-IsAcyclic (client_target i ∷ known) (i + 1) fanout
      (is_known-cons (client_target i) known (codes "//facade") h),
)

client_label :
    (known : List Target) (i : ℕ)
    → is_known (client_target i ∷ known) (codes "//clients:" ++ client i) ≡ true
unfolding is_known is_label client_target
client_label known i =
    ground (arith, text_eq_iff (codes "//clients:" ++ client i) (codes "//clients:" ++ client i))

clients-known :
    (known : List Target) (i fanout : ℕ)
    → All (λ d. is_known (known_after known (clients i fanout)) d ≡ true) (client_labels i fanout)
unfolding clients client_labels known_after client_target
clients-known known i zero = tt
clients-known known i (suc fanout) = (
  is_known-known_after (client_target i ∷ known) (clients (i + 1) fanout)
      (codes "//clients:" ++ client i) (client_label known i),
  clients-known (client_target i ∷ known) (i + 1) fanout,
)

-- The targets of the fixture depend on targets before them alone: the graph has no cycle and no
-- label without a target.
pub targets-IsAcyclic :
    (language : Language) (size fanout : ℕ) → IsAcyclic [] (targets language size fanout)
unfolding targets
targets-IsAcyclic language size fanout =
    let known = facade_target language ∷ spare_target ∷ core_target size ∷ [] in
    (
      tt,
      (
        tt,
        (
          facade_deps language size,
          IsAcyclic-append known (clients 0 fanout) (app_target fanout ∷ [])
              (clients-IsAcyclic known 0 fanout (facade_known language size))
              (clients-known known 0 fanout, tt),
        ),
      ),
    )
  where
    facade_deps :
        (language : Language) (size : ℕ)
        → All
            (λ d. is_known (spare_target ∷ core_target size ∷ []) d ≡ true)
            (codes "//core" ∷ codes "//spare" ∷ [])
    facade_deps language size = unfold is_known is_label text_eq in (refl, (refl, tt))

    facade_known :
        (language : Language) (size : ℕ)
        → is_known
            (facade_target language ∷ spare_target ∷ core_target size ∷ [])
            (codes "//facade")
          ≡ true
    facade_known language size = unfold is_known is_label text_eq in refl
