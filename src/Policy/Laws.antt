-- ===== src/Policy/Laws.antt =====
-- tools/repository_policy_test.py: the workflows that `workflow_errors` has nothing against.
use rules_elide.Prelude.{
  ◌≡◌, ◌≢◌, ◌↔◌, ◌⊎◌, refl, inl, inr, Bool, true, false, not, ◌&&◌, List, [], ◌∷◌, ◌++◌, All,
  Option, none, some, Bool-cases, Option-cases, arith,
}
use rules_elide.Prelude.Text.{Text, codes, text_eq, text_eq_iff, starts_with}
use rules_elide.Policy.{
  Permissions, values, Trigger, events, has_text, Entry, Job, Workflow, PolicyError, is_pinned,
  is_exception, is_false, release_ruleset, publish_to_bcr, error_if, action_errors, entry_errors,
  entries_errors, is_inherit, jobs_errors, any_write, permission_errors, is_privileged,
  workflow_errors,
}
use rules_elide.Prelude.Search.{split_first, split_first_parts, split_first-none}
use rules_elide.Policy.Pinned.{Pinned, is_pinned_iff}

-- A remote action, by the commit it is pinned to, or one of the two exceptions in release.yml.
abbrev pub MayRun : Text → Text → Type 0
MayRun filename action =
    (starts_with action (codes "./") ≡ true)
    ⊎ Pinned action
    ⊎ ((filename ≡ codes "release.yml")
        × ((action ≡ codes "bazel-contrib/.github/.github/workflows/release_ruleset.yaml@v7.7.0")
            ⊎ (action
                ≡ codes "bazel-contrib/publish-to-bcr/.github/workflows/publish.yaml@v1.6.0")))

-- A step that runs no action, or an action that may run and keeps no credentials.
abbrev pub IsTrusted : Text → Entry → Type 0
IsTrusted filename entry =
    (entry.uses ≡ [])
    ⊎ ((starts_with entry.uses (codes "github/codeql-action/") ≡ false)
        × MayRun filename entry.uses
        × ((starts_with entry.uses (codes "actions/checkout@") ≡ false)
            ⊎ (entry.persist_credentials ≡ some (codes "false"))))

abbrev pub IsSecureJob : Text → Job → Type 0
IsSecureJob filename job =
    (job.secrets ≢ some (codes "inherit"))
    × IsTrusted filename job.itself
    × All (IsTrusted filename) job.steps

abbrev pub IsReadOnly : Option Permissions → Type 0
IsReadOnly none = ⊥
IsReadOnly (some (Permissions.scalar s)) = ⊥
IsReadOnly (some (values vs)) = All (λ v. v ≡ codes "read") vs

-- No event is `pull_request_target`, and a scalar does not have that word anywhere.
abbrev pub IsUnprivileged : Option Trigger → Type 0
IsUnprivileged none = Unit
IsUnprivileged (some (Trigger.scalar s)) =
    (before after : Text) → s ≢ before ++ (codes "pull_request_target" ++ after)
IsUnprivileged (some (events names)) = All (λ n. n ≢ codes "pull_request_target") names

abbrev pub IsSecure : Workflow → Text → Type 0
IsSecure workflow filename =
    IsReadOnly workflow.permissions
    × IsUnprivileged workflow.trigger
    × All (IsSecureJob filename) workflow.jobs

error_if-nil_iff : (b : Bool) (e : PolicyError) → (error_if b e ≡ []) ↔ (b ≡ false)
unfolding error_if
error_if-nil_iff true e = ground arith
error_if-nil_iff false e = ground arith

append-nil_iff {ℓ} : {A : Type ℓ} (xs ys : List A) → (xs ++ ys ≡ []) ↔ ((xs ≡ []) × (ys ≡ []))
append-nil_iff [] ys = ground arith
append-nil_iff (x ∷ xs) ys = ground arith

is_exception_iff :
    (filename action : Text)
    → (is_exception filename action ≡ true) ↔ (
        (filename ≡ codes "release.yml") × ((action ≡ release_ruleset) ⊎ (action ≡ publish_to_bcr)))
unfolding is_exception
is_exception_iff filename action = ground (
  arith,
  text_eq_iff filename (codes "release.yml"),
  text_eq_iff action release_ruleset,
  text_eq_iff action publish_to_bcr,
)

is_false_iff : (o : Option Text) → (is_false o ≡ true) ↔ (o ≡ some (codes "false"))
unfolding is_false
is_false_iff none = ground arith
is_false_iff (some s) = ground (arith, text_eq_iff s (codes "false"))

is_inherit_iff : (o : Option Text) → (is_inherit o ≡ true) ↔ (o ≡ some (codes "inherit"))
unfolding is_inherit
is_inherit_iff none = ground arith
is_inherit_iff (some s) = ground (arith, text_eq_iff s (codes "inherit"))

any_write_iff : (vs : List Text) → (any_write vs ≡ false) ↔ All (λ v. v ≡ codes "read") vs
unfolding any_write
any_write_iff [] = ground arith
any_write_iff (v ∷ vs) = ground (arith, text_eq_iff v (codes "read"), any_write_iff vs)

has_text_iff : (names : List Text) (s : Text) → (has_text names s ≡ false) ↔ All (λ n. n ≢ s) names
unfolding has_text
has_text_iff [] s = ground arith
has_text_iff (n ∷ names) s = ground (arith, text_eq_iff n s, has_text_iff names s)

is_privileged_iff :
    (trigger : Option Trigger) → (is_privileged trigger ≡ false) ↔ IsUnprivileged trigger
unfolding is_privileged
is_privileged_iff none = (λ e. tt, λ u. refl)
is_privileged_iff (some (events names)) = has_text_iff names (codes "pull_request_target")
is_privileged_iff (some (Trigger.scalar s)) =
    elim (Option-cases (split_first (codes "pull_request_target") s)) [
      | inl missing ↦ (
        λ e before after. split_first-none (codes "pull_request_target") s before after missing,
        λ u. rw (missing, is_privileged) refl,
      )
      | inr ((before, after), found) ↦ (
        λ e. cc (rw (found, is_privileged) at e),
        λ u.
            absurd (
              u before after
                (split_first_parts (codes "pull_request_target") s before after found)),
      )
    ]

permission_errors_iff :
    (permissions : Option Permissions)
    → (permission_errors permissions ≡ []) ↔ IsReadOnly permissions
unfolding permission_errors
permission_errors_iff none = ground arith
permission_errors_iff (some (Permissions.scalar s)) = ground arith
permission_errors_iff (some (values vs)) =
    ground (
      arith,
      any_write_iff vs,
      error_if-nil_iff (any_write vs) PolicyError.permissions_not_read_only,
    )

not_iff : (b : Bool) → (not b ≡ false) ↔ (b ≡ true)
not_iff true = ground arith
not_iff false = ground arith

-- The three conditions under which an action is wrong, of which none holds.
none_wrong_iff {ℓ κ μ} :
    {P : Type ℓ} {Q : Type κ} {R : Type μ} (codeql own pinned exception checkout kept : Bool)
    → (pinned ≡ true) ↔ P
    → (exception ≡ true) ↔ Q
    → (kept ≡ true) ↔ R
    → ((codeql ≡ false)
        × (not own && (not pinned && not exception) ≡ false)
        × (checkout && not kept ≡ false))
      ↔ ((codeql ≡ false) × ((own ≡ true) ⊎ P ⊎ Q) × ((checkout ≡ false) ⊎ R))
none_wrong_iff codeql own pinned exception checkout kept p q r = ground (arith, p, q, r)

three_errors_iff :
    (a b c : Bool) (e f g : PolicyError)
    → (error_if a e ++ (error_if b f ++ error_if c g) ≡ [])
      ↔ ((a ≡ false) × (b ≡ false) × (c ≡ false))
unfolding error_if
three_errors_iff true b c e f g = ground arith
three_errors_iff false true c e f g = ground arith
three_errors_iff false false true e f g = ground arith
three_errors_iff false false false e f g = ground arith

action_errors_iff :
    (filename : Text) (entry : Entry)
    → (action_errors filename entry ≡ []) ↔ (
        (starts_with entry.uses (codes "github/codeql-action/") ≡ false)
        × MayRun filename entry.uses
        × ((starts_with entry.uses (codes "actions/checkout@") ≡ false)
            ⊎ (entry.persist_credentials ≡ some (codes "false"))))
unfolding action_errors
action_errors_iff filename entry =
    let (split, join) =
      three_errors_iff _ _ _ PolicyError.codeql_not_permitted PolicyError.not_pinned
        PolicyError.credentials_persisted in
    let (fine, fine') =
      none_wrong_iff (starts_with entry.uses (codes "github/codeql-action/"))
        (starts_with entry.uses (codes "./")) (is_pinned entry.uses)
        (is_exception filename entry.uses) (starts_with entry.uses (codes "actions/checkout@"))
        (is_false entry.persist_credentials) (is_pinned_iff entry.uses)
        (is_exception_iff filename entry.uses) (is_false_iff entry.persist_credentials) in
    (λ e. fine (split e), λ h. join (fine' h))

entry_errors_iff :
    (filename : Text) (entry : Entry)
    → (entry_errors filename entry ≡ []) ↔ IsTrusted filename entry
unfolding entry_errors
entry_errors_iff filename entry = elim (Bool-cases (text_eq entry.uses [])) [
  | inl h ↦ rw h (λ e. inl ((text_eq_iff entry.uses []).0 h), λ t. refl)
  | inr h ↦ rw h (
    λ e. inr ((action_errors_iff filename entry).0 e),
    λ trusted. elim trusted [
      | inl none_used ↦ ground (arith, h, text_eq_iff entry.uses [], none_used)
      | inr fine ↦ (action_errors_iff filename entry).1 fine
    ],
  )
]

entries_errors_iff :
    (filename : Text) (entries : List Entry)
    → (entries_errors filename entries ≡ []) ↔ All (IsTrusted filename) entries
unfolding entries_errors
entries_errors_iff filename [] = (λ e. tt, λ t. refl)
entries_errors_iff filename (entry ∷ entries) =
    let (split, join) =
      append-nil_iff (entry_errors filename entry) (entries_errors filename entries) in
    let (head, head') = entry_errors_iff filename entry in
    let (rest, rest') = entries_errors_iff filename entries in
    (λ e. (head (split e).0, rest (split e).1), λ (h, hs). join (head' h, rest' hs))

job_errors_iff :
    (filename : Text) (job : Job) (more : List PolicyError)
    → (error_if (is_inherit job.secrets) PolicyError.unscoped_secrets
          ++ (entries_errors filename (job.itself ∷ job.steps) ++ more)
        ≡ [])
      ↔ (IsSecureJob filename job × (more ≡ []))
job_errors_iff filename job more =
    let (split, join) =
      append-nil_iff (error_if (is_inherit job.secrets) PolicyError.unscoped_secrets) _ in
    let (split', join') = append-nil_iff (entries_errors filename (job.itself ∷ job.steps)) more in
    let (scoped, scoped') =
      error_if-nil_iff (is_inherit job.secrets) PolicyError.unscoped_secrets in
    let (trusted, trusted') = entries_errors_iff filename (job.itself ∷ job.steps) in
    let inherit = is_inherit_iff job.secrets in
    (
      λ e.
          let (mine, rest) = split e in
          let (entries, none_left) = split' rest in
          let (itself, steps) = trusted entries in
          (((λ k. ground (arith, inherit, k, scoped mine)), itself, steps), none_left),
      λ ((own, itself, steps), none_left).
          join (scoped' (not_inherit own), join' (trusted' (itself, steps), none_left)),
    )
  where
    not_inherit : (own : job.secrets ≢ some (codes "inherit")) → is_inherit job.secrets ≡ false
    not_inherit own = ground (arith, is_inherit_iff job.secrets, own)

jobs_errors_iff :
    (filename : Text) (jobs : List Job)
    → (jobs_errors filename jobs ≡ []) ↔ All (IsSecureJob filename) jobs
unfolding jobs_errors
jobs_errors_iff filename [] = (λ e. tt, λ t. refl)
jobs_errors_iff filename (job ∷ jobs) =
    let (split, join) = job_errors_iff filename job (jobs_errors filename jobs) in
    let (rest, rest') = jobs_errors_iff filename jobs in
    (λ e. ((split e).0, rest (split e).1), λ (h, hs). join (h, rest' hs))

-- A workflow raises no error exactly when it grants read permissions alone, is not started by
-- pull_request_target, and every job of it keeps its secrets and runs trusted actions only.
pub workflow_errors-nil_iff :
    (workflow : Workflow) (filename : Text)
    → (workflow_errors workflow filename ≡ []) ↔ IsSecure workflow filename
unfolding workflow_errors
workflow_errors-nil_iff workflow filename =
    let (split, join) = append-nil_iff (permission_errors workflow.permissions) _ in
    let (split', join') =
      append-nil_iff (error_if (is_privileged workflow.trigger) PolicyError.privileged_trigger)
        (jobs_errors filename workflow.jobs) in
    let (read_only, read_only') = permission_errors_iff workflow.permissions in
    let (plain, plain') =
      error_if-nil_iff (is_privileged workflow.trigger) PolicyError.privileged_trigger in
    let (started, started') = is_privileged_iff workflow.trigger in
    let (secure, secure') = jobs_errors_iff filename workflow.jobs in
    (
      λ e.
          let (mine, rest) = split e in
          let (trigger, jobs) = split' rest in
          (read_only mine, started (plain trigger), secure jobs),
      λ (permissions, trigger, jobs).
          join (read_only' permissions, join' (plain' (started' trigger), secure' jobs)),
    )
