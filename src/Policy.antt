-- ===== src/Policy.antt =====
-- tools/repository_policy_test.py: `workflow_errors`, on what it reads of a workflow. The YAML
-- loader gives every scalar as a text; a value of another shape than GitHub's syntax of workflows
-- has at its place is not modelled.
pub mod Pinned
pub mod Laws
mod Tests
use rules_elide.Prelude.{
  ℕ, zero, suc, Bool, true, false, not, ◌&&◌, ◌||◌, List, [], ◌∷◌, ◌++◌, Option, none, some, ◌==◌,
  leb, length, if◌then◌else◌,
}
use rules_elide.Prelude.Text.{Text, codes, text_eq, starts_with}
use rules_elide.Prelude.Search.{split_first}

-- `permissions`: a scalar such as `write-all`, or a mapping, of which the values count.
pub data Permissions : Type 0 where
  scalar : Text → Permissions
  values : List Text → Permissions

-- `on`: a scalar, or the events of a list or of a mapping.
pub data Trigger : Type 0 where
  scalar : Text → Trigger
  events : List Text → Trigger

-- A step, or the job itself; `uses` is empty where it is absent.
pub record Entry : Type 0 where
  pub uses : Text
  pub persist_credentials : Option Text

-- `secrets` where it is a scalar.
pub record Job : Type 0 where
  pub secrets : Option Text
  pub itself : Entry
  pub steps : List Entry

pub record Workflow : Type 0 where
  pub permissions : Option Permissions
  pub trigger : Option Trigger
  pub jobs : List Job

pub data PolicyError : Type 0 where
  permissions_required permissions_not_read_only privileged_trigger unscoped_secrets : PolicyError
  codeql_not_permitted not_pinned credentials_persisted : PolicyError

abbrev pub is_hex : ℕ → Bool
is_hex c = (leb b'0' c && leb c b'9') || (leb b'a' c && leb c b'f')

unfoldable pub all_hex : Text → Bool
all_hex [] = true
all_hex (c ∷ s) = is_hex c && all_hex s

-- The rest of `re.fullmatch(r"[^@]+@[0-9a-f]{40}", action)`, behind a first character.
unfoldable pub is_pinned_behind : Text → Bool
is_pinned_behind [] = false
is_pinned_behind (c ∷ s) =
    let more = is_pinned_behind s in if c == b'@' then length s == 40 && all_hex s else more

unfoldable pub is_pinned : Text → Bool
is_pinned [] = false
is_pinned (c ∷ s) = not (c == b'@') && is_pinned_behind s

-- `BCR_TAG_EXCEPTIONS`
abbrev pub release_ruleset : Text
release_ruleset = codes "bazel-contrib/.github/.github/workflows/release_ruleset.yaml@v7.7.0"

abbrev pub publish_to_bcr : Text
publish_to_bcr = codes "bazel-contrib/publish-to-bcr/.github/workflows/publish.yaml@v1.6.0"

unfoldable pub is_exception : Text → Text → Bool
is_exception filename action =
    text_eq filename (codes "release.yml")
    && (text_eq action release_ruleset || text_eq action publish_to_bcr)

unfoldable pub is_false : Option Text → Bool
is_false none = false
is_false (some s) = text_eq s (codes "false")

-- `errors.append(e)` under a condition.
unfoldable pub error_if : Bool → PolicyError → List PolicyError
error_if true e = e ∷ []
error_if false e = []

unfoldable pub action_errors : Text → Entry → List PolicyError
action_errors filename entry =
    error_if (starts_with entry.uses (codes "github/codeql-action/")) codeql_not_permitted
    ++ (error_if
          (not (starts_with entry.uses (codes "./"))
            && (not (is_pinned entry.uses) && not (is_exception filename entry.uses)))
          not_pinned
        ++ error_if
            (starts_with entry.uses (codes "actions/checkout@")
              && not (is_false entry.persist_credentials))
            credentials_persisted)

unfoldable pub entry_errors : Text → Entry → List PolicyError
entry_errors filename entry = if text_eq entry.uses [] then [] else action_errors filename entry

unfoldable pub entries_errors : Text → List Entry → List PolicyError
entries_errors filename [] = []
entries_errors filename (entry ∷ entries) =
    entry_errors filename entry ++ entries_errors filename entries

unfoldable pub is_inherit : Option Text → Bool
is_inherit none = false
is_inherit (some s) = text_eq s (codes "inherit")

unfoldable pub jobs_errors : Text → List Job → List PolicyError
jobs_errors filename [] = []
jobs_errors filename (job ∷ jobs) =
    error_if (is_inherit job.secrets) unscoped_secrets
    ++ (entries_errors filename (job.itself ∷ job.steps) ++ jobs_errors filename jobs)

-- `any(v != "read" for v in permissions.values())`
unfoldable pub any_write : List Text → Bool
any_write [] = false
any_write (v ∷ vs) = not (text_eq v (codes "read")) || any_write vs

unfoldable pub permission_errors : Option Permissions → List PolicyError
permission_errors none = permissions_required ∷ []
permission_errors (some (Permissions.scalar s)) = permissions_not_read_only ∷ []
permission_errors (some (values vs)) = error_if (any_write vs) permissions_not_read_only

unfoldable pub has_text : List Text → Text → Bool
has_text [] s = false
has_text (t ∷ ts) s = text_eq t s || has_text ts s

-- `"pull_request_target" in workflow.get("on", {})`, of a scalar a search inside the text.
unfoldable pub is_privileged : Option Trigger → Bool
is_privileged none = false
is_privileged (some (Trigger.scalar s)) = elim (split_first (codes "pull_request_target") s) [
  | none ↦ false
  | some found ↦ true
]
is_privileged (some (events names)) = has_text names (codes "pull_request_target")

unfoldable pub workflow_errors : Workflow → Text → List PolicyError
workflow_errors workflow filename =
    permission_errors workflow.permissions
    ++ (error_if (is_privileged workflow.trigger) privileged_trigger
        ++ jobs_errors filename workflow.jobs)
