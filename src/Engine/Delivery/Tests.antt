-- ===== src/Engine/Delivery/Tests.antt =====
-- A merge at concrete inputs.
use patchwright.Prelude.{
  ℕ, ◌≡◌, ◌≢◌, refl, false, none, some, List, [], ◌∷◌, ok, arith, decide, replicate, same_refl,
}
use patchwright.Prelude.Text.{
  codes, trim, len, split_once, is_whitespace, is_control, is_ascii_hexdigit,
}
use patchwright.Domain.{Task, TaskState-discrete, awaiting_merge_approval, permits, transition}
use patchwright.Contract.Fields.{is_sha256, is_git_sha, is_repository_name, is_space_or_control}
use patchwright.Contract.Source
use patchwright.Contract.Source.{github_pull_request, item_number}
use patchwright.Contract.Bindings.{RepositoryBinding, read_only, healthy}
use patchwright.Contract.Tests.{pull_request_source, contract_read}
use patchwright.Policy.Capabilities
use patchwright.Policy.Capabilities.{Capability-discrete, merge_pull_request, merge, class_supports}
use patchwright.Policy.Fingerprints.{
  ActionFingerprint, validated_text, validated_optional_text, validate_repository_name,
  validate_optional_git_sha, validate_sha256, try_from,
}
use patchwright.Policy
use patchwright.Policy.{Policy, Approval, allowed, authorize}
use patchwright.Policy.Approvals.{authorize-new}
use patchwright.Policy.Tests.{digest}
use patchwright.Actions
use patchwright.Actions.{GitHubAction, MergeMethod, squash, capability}
use patchwright.Actions.Remotes.{GitHubActionPreview}
use patchwright.Engine.TaskStore.{
  TaskTables, load_task, task_contract, repository_binding, approval,
}
use patchwright.Engine.TaskStore.Deliveries.{is_state, claim_delivery_with_task_event}
use patchwright.Engine.TaskStore.Exclusion.{records_failure}
use patchwright.Engine.TaskStore.Histories.{Operation, completes_delivery, restarts, perform_all}
use patchwright.Engine.TaskStore.Tests.{no_tables, plain}
use patchwright.Engine.Delivery.{DeliveryPreview, delivery_preview_eq, Tools, is_merging}
use patchwright.Engine.Delivery.Previews.{
  expected_state, is_wrong_target, is_wrong_base, is_wrong_number, validate_action_target,
  matches_sha, validate_bound_preconditions, validate_action_sha, is_other_remote, is_other_source,
  preview_delivery,
}
use patchwright.Engine.Delivery.Execution.{
  fresh_preview, merge_event, checked_execution, authorize_execution,
}
use patchwright.Engine.Delivery.Authority.{
  IsGranted, authorize_execution-IsGranted, authorize_execution-authorize_execution,
}

abbrev tools : Tools
tools = record {
  sha256 = λ _. digest;
  instructions_json = λ _. some [];
  task_name = λ _. codes "t";
  inspect_head = λ _. none;
  outside = plain;
  unmerged_result = codes "failed";
  merged_result = λ _. codes "succeeded";
}

abbrev merge_action : GitHubActionPreview
merge_action = record {
  remote = record { repository_id = 1; installation_id = 2; repository_full_name = codes "o/r" };
  action = GitHubAction.merge_pull_request 7 (replicate 40 b'a') squash;
  precondition = record {
    expected_head_sha = some (replicate 40 b'a');
    expected_base_sha = none;
    snapshot_generation = 1;
  };
  payload_sha256 = digest;
  idempotency_sha256 = codes "key";
  required_permissions = [];
}

abbrev merge_print : ActionFingerprint
merge_print = record {
  task_id = 3;
  github_repository_id = 1;
  repository_full_name = codes "o/r";
  action_kind = codes "mergePullRequest";
  pull_request_number = some 7;
  branch = none;
  head_sha = some (replicate 40 b'a');
  base_sha = none;
  payload_sha256 = digest;
  policy_sha256 = digest;
  instruction_sha256 = digest;
  invalidation_generation = 1;
}

abbrev merge_preview : DeliveryPreview
merge_preview = record { task_id = 3; action = merge_action; fingerprint = merge_print }

abbrev merge_approval : Approval
merge_approval = record {
  id = 9;
  class = merge;
  capability = merge_pull_request;
  fingerprint = merge_print;
  approved_by = codes "ada";
  approved_at = 100;
  expires_at = 200;
}

abbrev merge_task : Task
merge_task = record {
  id = 3;
  title = codes "fix";
  repository_path = codes "/r";
  state = awaiting_merge_approval;
  created_at = 1;
  updated_at = 1;
  interruption = none;
  source = github_pull_request pull_request_source;
  repository_binding_id = some 4;
  contract_version = 1;
  checkpoint_id = none;
}

abbrev merge_binding : RepositoryBinding
merge_binding = record {
  id = 4;
  github_repository_id = 1;
  full_name = codes "o/r";
  installation_id = 2;
  clone_url = codes "https://h";
  html_url = codes "https://h";
  default_branch = codes "main";
  user_checkout = none;
  managed_clone = none;
  state_root = codes "/s";
  worktree_root = codes "/w";
  default_branch_sha = none;
  default_branch_committed_at = none;
  permissions = read_only;
  credential_health = healthy;
}

abbrev tables : TaskTables
tables = record no_tables {
  tasks = merge_task ∷ [];
  task_contracts = contract_read ∷ [];
  repository_bindings = merge_binding ∷ [];
  approvals =
      record {
        id = 9;
        task_id = 3;
        capability = merge_pull_request;
        action_digest = codes "d";
        payload = merge_approval;
        expires_at = 200;
        invalidated_at = none;
      }
      ∷ [];
}

preview-merge : preview_delivery tools tables 3 merge_action ≡ ok merge_preview
unfolding preview_delivery load_task task_contract repository_binding expected_state is_merging
    capability Actions.action_kind Capabilities.action_kind Actions.pull_request_number
    Actions.branch Actions.expected_head_sha Actions.expected_base_sha item_number
    Source.repository_id Source.repository_full_name is_wrong_target is_wrong_base is_wrong_number
    validate_action_target matches_sha validate_bound_preconditions validate_action_sha
    is_other_remote is_other_source decide TaskState-discrete Capability-discrete try_from
    validated_text validated_optional_text validate_repository_name validate_optional_git_sha
    validate_sha256 is_sha256 is_git_sha is_repository_name is_space_or_control trim len split_once
    is_whitespace is_control is_ascii_hexdigit
preview-merge = refl

fresh-merge : fresh_preview tools tables merge_preview ≡ ok tt
unfolding fresh_preview
fresh-merge = rw (preview-merge, same_refl merge_preview) refl

abbrev enabled : Policy
enabled = record { automation_disabled = false }

abbrev clock : ℕ → ℕ
clock n = 150

merge_approval-new :
    Policy.new 9 merge merge_pull_request merge_print (codes "ada") 100 200 ≡ ok merge_approval
unfolding Policy.new validated_text trim is_whitespace is_control class_supports
    Capabilities.action_kind
merge_approval-new = refl

allowed-merge : authorize enabled merge_pull_request merge_print (some merge_approval) 150 ≡ allowed
allowed-merge =
    authorize-new 9 merge merge_pull_request merge_print (codes "ada") 100 200 150 enabled
      merge_approval merge_approval-new refl (omega arith) (omega arith)

execution-merge :
    (authorize_execution tools enabled clock merge_preview 9 tables).1 ≡ ok (codes "key")
unfolding authorize_execution checked_execution merge_event is_merging capability load_task approval
    transition permits claim_delivery_with_task_event
execution-merge = rw (fresh-merge, allowed-merge) refl

authorize_execution-IsGranted_example :
    IsGranted tools enabled clock merge_preview 9 tables (codes "key")
authorize_execution-IsGranted_example =
    authorize_execution-IsGranted tools enabled clock merge_preview 9 tables (codes "key")
      (λ key. omega arith) execution-merge

abbrev merged_then_restarted : List Operation
merged_then_restarted = completes_delivery 160 (codes "key") (codes "succeeded") ∷ restarts 170 ∷ []

authorize_execution-authorize_execution_example :
    (authorize_execution tools enabled clock merge_preview 9 (
      perform_all plain merged_then_restarted
        (authorize_execution tools enabled clock merge_preview 9 tables).0)).1
    ≢ ok (codes "key")
unfolding records_failure is_state
authorize_execution-authorize_execution_example =
    authorize_execution-authorize_execution tools enabled enabled clock clock merge_preview
      merge_preview 9 9 tables (codes "key") merged_then_restarted (λ key. omega arith)
      execution-merge (refl, (refl, tt))
