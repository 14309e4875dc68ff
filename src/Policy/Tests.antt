-- ===== src/Policy/Tests.antt =====
-- Workflows as the tests of tools/repository_policy_test.py have them.
use rules_elide.Prelude.{◌≡◌, ◌↔◌, refl, true, [], ◌∷◌, none, some}
use rules_elide.Prelude.Text.{Text, codes, text_eq, starts_with, strip}
use rules_elide.Policy.{
  values, events, Workflow, PolicyError, all_hex, is_pinned, is_pinned_behind, is_exception,
  is_false, release_ruleset, error_if, action_errors, entry_errors, entries_errors, is_inherit,
  jobs_errors, any_write, permission_errors, is_privileged, has_text, workflow_errors,
}
use rules_elide.Policy.Pinned.{Pinned, is_pinned_iff}
use rules_elide.Policy.Laws.{IsSecure, workflow_errors-nil_iff}

-- A workflow with read permissions whose only job runs the action.
abbrev one_job : Text → Workflow
one_job action = record {
  permissions = some (values (codes "read" ∷ []));
  trigger = some (events (codes "push" ∷ []));
  jobs =
      record {
        secrets = none;
        itself = record { uses = action; persist_credentials = none };
        steps = [];
      }
      ∷ [];
}

-- The exception holds in release.yml alone.
exception_in_release :
    (workflow_errors (one_job release_ruleset) (codes "release.yml") ≡ [])
    × (workflow_errors (one_job release_ruleset) (codes "ci.yml") ≡ PolicyError.not_pinned ∷ [])
unfolding workflow_errors permission_errors any_write error_if is_privileged has_text jobs_errors
    is_inherit entries_errors entry_errors action_errors is_exception is_false is_pinned
    is_pinned_behind all_hex text_eq starts_with strip
exception_in_release = (refl, refl)

workflow_errors-nil_iff_example :
    (workflow_errors (one_job release_ruleset) (codes "ci.yml") ≡ [])
    ↔ IsSecure (one_job release_ruleset) (codes "ci.yml")
workflow_errors-nil_iff_example = workflow_errors-nil_iff (one_job release_ruleset) (codes "ci.yml")

abbrev setup_go : Text
setup_go = codes "actions/setup-go@0123456789abcdef0123456789abcdef01234567"

is_pinned_iff_example : (is_pinned setup_go ≡ true) ↔ Pinned setup_go
is_pinned_iff_example = is_pinned_iff setup_go
