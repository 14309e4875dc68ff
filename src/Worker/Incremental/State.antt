-- ===== src/Worker/Incremental/State.antt =====
-- The state of the incremental worker: each output has a directory of its own, and no other is left.
use rules_elide.Prelude.{
  ◌≡◌, ◌∙◌, ◌⊎◌, refl, ap, sym, Bool, true, false, List, [], ◌∷◌, arith, none, some, Bool-cases,
  some_injective, inl, inr, if◌then◌else◌, not,
}
use rules_elide.Prelude.Text.{Text, text_eq, text_eq_iff, has_text}
use rules_elide.Prelude.Dict.{Dict, lookup, insert, lookup-insert, lookup-filter_keys}
use rules_elide.Worker.Incremental.{TargetState, Worker, start, remove_root, forget}

pub record Inv (w : Worker) : Type 0 where
  pub owned :
      (k : Text) (s : TargetState) → lookup k w.states ≡ some s → has_text s.root w.roots ≡ true
  pub claimed :
      (r : Text)
      → has_text r w.roots ≡ true
      → (k : Text) × (s : TargetState) × (lookup k w.states ≡ some s) × (s.root ≡ r)
  pub apart :
      (k j : Text) (s t : TargetState)
      → lookup k w.states ≡ some s
      → lookup j w.states ≡ some t
      → s.root ≡ t.root
      → k ≡ j

-- The same, where the directory of one output is gone.
pub record InvBut (output : Text) (states : Dict TargetState) (roots : List Text) : Type 0 where
  owned :
      (k : Text) (s : TargetState)
      → text_eq output k ≡ false
      → lookup k states ≡ some s
      → has_text s.root roots ≡ true
  claimed :
      (r : Text)
      → has_text r roots ≡ true
      → (k : Text) × (s : TargetState) × (text_eq output k ≡ false)
        × (lookup k states ≡ some s)
        × (s.root ≡ r)
  apart :
      (k j : Text) (s t : TargetState)
      → text_eq output k ≡ false
      → text_eq output j ≡ false
      → lookup k states ≡ some s
      → lookup j states ≡ some t
      → s.root ≡ t.root
      → k ≡ j

has_text-remove_root :
    (t root : Text) (roots : List Text)
    → has_text t (remove_root root roots) ≡ (if text_eq t root then false else has_text t roots)
unfolding remove_root has_text
has_text-remove_root t root [] = ground arith
has_text-remove_root t root (r ∷ roots) = ground (
  arith,
  text_eq_iff t root,
  text_eq_iff r root,
  text_eq_iff r t,
  text_eq_iff t r,
  has_text-remove_root t root roots,
)

-- What two keys of a dict have, when one has no entry or another one.
other_key :
    (k j : Text) (d : Dict TargetState) {s : TargetState}
    → lookup k d ≡ none
    → lookup j d ≡ some s
    → text_eq k j ≡ false
other_key k j d {s} e f = elim (Bool-cases (text_eq k j)) [
  | inr n ↦ n
  | inl same ↦ absurd (let p = (text_eq_iff k j).0 same in cc (ap (λ x. lookup x d) p, e, f))
]

same_entry :
    (k j : Text) (d : Dict TargetState) {s t : TargetState}
    → text_eq k j ≡ true
    → lookup k d ≡ some t
    → lookup j d ≡ some s
    → s ≡ t
same_entry k j d {s} {t} same e f =
    let p = (text_eq_iff k j).0 same in some_injective (sym f ∙ sym (ap (λ x. lookup x d) p) ∙ e)

pub text_eq_self : (k : Text) → text_eq k k ≡ true
text_eq_self k = (text_eq_iff k k).1 refl

lookup-forget :
    (output k : Text) (d : Dict TargetState) {s : TargetState}
    → lookup k (forget output d) ≡ some s
    → (text_eq output k ≡ false) × (lookup k d ≡ some s)
lookup-forget output k d e =
    ground (arith, e, lookup-filter_keys k (λ key. not (text_eq output key)) d)

pub forget-gone :
    (output k : Text) (d : Dict TargetState)
    → text_eq output k ≡ true
    → lookup k (forget output d) ≡ none
forget-gone output k d n = rw (lookup-filter_keys k (λ key. not (text_eq output key)) d, n)

pub forget-other :
    (output k : Text) (d : Dict TargetState)
    → text_eq output k ≡ false
    → lookup k (forget output d) ≡ lookup k d
forget-other output k d n = rw (lookup-filter_keys k (λ key. not (text_eq output key)) d, n)

pub start-Inv : Inv start
unfolding start lookup has_text
start-Inv = record {
  owned = λ k s e. cc;
  claimed = λ r h. absurd (ground (arith, h));
  apart = λ k j s t e f h. cc;
}

pub absent-InvBut :
    (output : Text) (w : Worker)
    → Inv w
    → lookup output w.states ≡ none
    → InvBut output w.states w.roots
absent-InvBut output w v e = record {
  owned = λ k s n h. v.owned k s h;
  claimed = λ r h.
      let (k, s, found, root) = v.claimed r h in
      (k, s, other_key output k w.states e found, found, root);
  apart = λ k j s t n m e f h. v.apart k j s t e f h;
}

pub removed-InvBut :
    (output : Text) (target : TargetState) (w : Worker)
    → Inv w
    → lookup output w.states ≡ some target
    → InvBut output w.states (remove_root target.root w.roots)
removed-InvBut output target w v e = record {
  owned = λ k s n h. elim (Bool-cases (text_eq s.root target.root)) [
    | inr other ↦ rw (has_text-remove_root s.root target.root w.roots, other) (v.owned k s h)
    | inl same ↦
        let p : output ≡ k =
          v.apart output k target s e h (sym ((text_eq_iff s.root target.root).0 same)) in
        absurd (ground (arith, (text_eq_iff output k).1 p, n))
  ];
  claimed = λ r h. elim (Bool-cases (text_eq r target.root)) [
    | inl gone ↦ absurd (ground (arith, has_text-remove_root r target.root w.roots, gone, h))
    | inr kept ↦
        let (k, s, found, root) =
          v.claimed r (ground (arith, has_text-remove_root r target.root w.roots, kept, h)) in
        elim (Bool-cases (text_eq output k)) [
          | inr n ↦ (k, s, n, found, root)
          | inl same ↦
              let p : r ≡ target.root =
                sym root
                ∙ ap (λ (t : TargetState). t.root) (same_entry output k w.states same e found) in
              absurd (ground (arith, (text_eq_iff r target.root).1 p, kept))
        ]
  ];
  apart = λ k j s t n m e f h. v.apart k j s t e f h;
}

pub forget-Inv :
    (output : Text) (states : Dict TargetState) (roots : List Text) (running : Bool)
    → InvBut output states roots
    → Inv (record { states = forget output states; roots = roots; running = running })
forget-Inv output states roots running v = record {
  owned = λ k s h. let (n, found) = lookup-forget output k states h in v.owned k s n found;
  claimed = λ r h.
      let (k, s, n, found, root) = v.claimed r h in
      (k, s, forget-other output k states n ∙ found, root);
  apart = λ k j s t e f h.
      let (n, found) = lookup-forget output k states e in
      let (m, found') = lookup-forget output j states f in v.apart k j s t n m found found' h;
}

insert-entry :
    (output : Text) (target : TargetState) (k : Text) (d : Dict TargetState) {s : TargetState}
    → lookup k (insert output target d) ≡ some s
    → ((text_eq output k ≡ true) × (s ≡ target))
      ⊎ ((text_eq output k ≡ false) × (lookup k d ≡ some s))
insert-entry output target k d {s} e = elim (Bool-cases (text_eq output k)) [
  | inl same ↦ inl (same, some_injective (sym e ∙ rw (lookup-insert output k target d, same)))
  | inr other ↦ inr (other, rw (lookup-insert output k target d, other) at e)
]

pub insert-Inv :
    (output : Text) (target : TargetState) (states : Dict TargetState) (roots : List Text)
    (running : Bool)
    → InvBut output states roots
    → has_text target.root roots ≡ false
    → Inv (record {
      states = insert output target states;
      roots = target.root ∷ roots;
      running = running;
    })
unfolding has_text
insert-Inv output target states roots running v new = record {
  owned = λ k s h. elim (insert-entry output target k states h) [
    | inl (same, e) ↦
        ground (arith, ap (λ (t : TargetState). t.root) e, text_eq_iff target.root s.root)
    | inr (n, found) ↦ ground (arith, v.owned k s n found)
  ];
  claimed = λ r h. elim (Bool-cases (text_eq target.root r)) [
    | inl same ↦ (
      output,
      target,
      rw (lookup-insert output output target states, text_eq_self output),
      (text_eq_iff target.root r).0 same,
    )
    | inr other ↦
        let (k, s, n, found, root) = v.claimed r (ground (arith, other, h)) in
        (k, s, rw (lookup-insert output k target states, n) found, root)
  ];
  apart = λ k j s t e f h. elim (insert-entry output target k states e) [
    | inl (same, p) ↦ elim (insert-entry output target j states f) [
      | inl (same', q) ↦ sym ((text_eq_iff output k).0 same) ∙ (text_eq_iff output j).0 same'
      | inr (m, found) ↦ absurd (unowned j t m found (sym h ∙ ap (λ (t : TargetState). t.root) p))
    ]
    | inr (n, found) ↦ elim (insert-entry output target j states f) [
      | inl (same, q) ↦ absurd (unowned k s n found (h ∙ ap (λ (t : TargetState). t.root) q))
      | inr (m, found') ↦ v.apart k j s t n m found found' h
    ]
  ];
}
  where
    unowned :
        (k : Text) (s : TargetState)
        → text_eq output k ≡ false
        → lookup k states ≡ some s
        → s.root ≡ target.root
        → ⊥
    unowned k s n found p =
        let h = v.owned k s n found in absurd (cc (ap (λ r. has_text r roots) p, h, new))
