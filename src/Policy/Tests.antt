-- ===== src/Policy/Tests.antt =====
-- Approvals and authorizations at concrete inputs.
use patchwright.Prelude.{
  ◌+◌, ◌≤◌, ◌<◌, ◌≡◌, ◌↔◌, refl, if◌then◌else◌, false, none, some, ok, arith, replicate,
}
use patchwright.Prelude.Text.{
  Text, codes, trim, len, split_once, is_whitespace, is_control, is_ascii_hexdigit,
}
use patchwright.Contract.Fields.{is_sha256, is_git_sha, is_repository_name, is_space_or_control}
use patchwright.Policy.Capabilities.{
  push_branch, github_delivery, merge, class_supports, action_kind,
}
use patchwright.Policy.Fingerprints.{
  ActionFingerprintDraft, ActionFingerprint, validated_text, validated_optional_text,
  validate_repository_name, validate_optional_git_sha, validate_sha256, try_from,
}
use patchwright.Policy.{
  Approval, Policy, allowed, max_approval_duration, needs_no_approval, new, authorize,
}
use patchwright.Actions.{GitHubAction, capability}
use patchwright.Actions.Gating.{merges, authorize-capability}
use patchwright.Policy.Authorization.{Covers, Permitted, authorize-iff_Permitted}
use patchwright.Policy.Approvals.{authorize-new, authorize-bound}
use patchwright.Policy.Revalidation.{redraft, try_from-try_from}

abbrev pub digest : Text
digest = replicate 64 b'a'

abbrev push_draft : ActionFingerprintDraft
push_draft = record {
  task_id = 3;
  github_repository_id = 11;
  repository_full_name = codes "o/r";
  action_kind = codes " pushBranch ";
  pull_request_number = some 4;
  branch = some (codes "fix");
  head_sha = some (replicate 40 b'0');
  base_sha = none;
  payload_sha256 = digest;
  policy_sha256 = digest;
  instruction_sha256 = digest;
  invalidation_generation = 0;
}

abbrev pub push_action : ActionFingerprint
push_action = record {
  task_id = 3;
  github_repository_id = 11;
  repository_full_name = codes "o/r";
  action_kind = codes "pushBranch";
  pull_request_number = some 4;
  branch = some (codes "fix");
  head_sha = some (replicate 40 b'0');
  base_sha = none;
  payload_sha256 = digest;
  policy_sha256 = digest;
  instruction_sha256 = digest;
  invalidation_generation = 0;
}

try_from-push_draft : try_from push_draft ≡ ok push_action
unfolding try_from validated_text validated_optional_text validate_repository_name
    validate_optional_git_sha validate_sha256 is_sha256 is_git_sha is_repository_name
    is_space_or_control trim len split_once is_whitespace is_control is_ascii_hexdigit
try_from-push_draft = refl

try_from-try_from_example : try_from (redraft push_action) ≡ ok push_action
try_from-try_from_example = try_from-try_from push_draft push_action try_from-push_draft

abbrev enabled : Policy
enabled = record { automation_disabled = false }

abbrev pub approval : Approval
approval = record {
  id = 9;
  class = github_delivery;
  capability = push_branch;
  fingerprint = push_action;
  approved_by = codes "ada";
  approved_at = 100;
  expires_at = 200;
}

new-approval : new 9 github_delivery push_branch push_action (codes "ada ") 100 200 ≡ ok approval
unfolding new validated_text trim is_whitespace is_control class_supports action_kind
new-approval = refl

authorize-new_example : authorize enabled push_branch push_action (some approval) 150 ≡ allowed
authorize-new_example =
    authorize-new 9 github_delivery push_branch push_action (codes "ada ") 100 200 150 enabled
      approval new-approval refl (omega arith) (omega arith)

authorize-bound_example :
    (push_branch ≡ push_branch)
    × (push_action ≡ push_action)
    × (100 ≤ 150)
    × (150 < 100 + max_approval_duration)
unfolding needs_no_approval
authorize-bound_example =
    authorize-bound 9 github_delivery push_branch push_branch push_action push_action (codes "ada ")
      100 200 150 enabled approval new-approval refl authorize-new_example

authorize-iff_Permitted_example :
    (authorize enabled push_branch push_action none 150 ≡ allowed)
    ↔ Permitted enabled push_branch push_action none 150
authorize-iff_Permitted_example = authorize-iff_Permitted enabled push_branch push_action none 150

abbrev pushed : GitHubAction
pushed = GitHubAction.push_intent (codes "fix") (replicate 40 b'0')

authorize-capability_example :
    (enabled.automation_disabled ≡ false)
    × (a : Approval) × (some approval ≡ some a)
    × Covers a (capability pushed) push_action 150
    × (a.class ≡ (if merges pushed then merge else github_delivery))
unfolding capability
authorize-capability_example =
    authorize-capability enabled pushed push_action (some approval) 150 authorize-new_example
