-- ===== src/Engine/Delivery/Previews.antt =====
-- The preview of a delivery (crates/patchwright-engine/src/delivery.rs).
use patchwright.Prelude.{
  ℕ, Bool, true, false, not, ◌&&◌, ◌||◌, ◌++◌, Option, none, some, contains, ◌==◌, nat_eq, list_eq,
  option_eq, if◌then◌else◌, Result, ok, err, ◌>>=◌, ◌>>◌, reject_if,
}
use patchwright.Prelude.Text.{Text, codes}
use patchwright.Sorting.{is_some_and, is_none_or}
use patchwright.Domain.{
  Task, TaskState, task_state_eq, awaiting_merge_approval, awaiting_delivery_approval,
}
use patchwright.Contract.Source
use patchwright.Contract.Source.{TaskSource, github_issue, github_pull_request, item_number}
use patchwright.Contract.Bindings.{RepositoryBinding}
use patchwright.Contract.Tasks.{TaskContract}
use patchwright.Policy.Capabilities.{Capability, capability_eq}
use patchwright.Policy.Fingerprints.{
  ActionFingerprintDraft, ActionFingerprint, ApprovalError, try_from,
}
use patchwright.Actions.{
  GitHubAction, capability, action_kind, pull_request_number, branch, expected_head_sha,
  expected_base_sha,
}
use patchwright.Actions.Remotes.{GitHubActionPreview}
use patchwright.Engine.TaskStore.{TaskTables, load_task, task_contract, repository_binding}
use patchwright.Engine.Delivery.{
  DeliveryPreview, task_missing, contract_missing, task_state_invalid, capability_not_declared,
  binding_missing, binding_mismatch, remote_mismatch, source_mismatch, action_target_mismatch,
  branch_mismatch, precondition_mismatch, fingerprint_invalid, serialization, Delivered, Tools,
  ok_or, is_merging,
}

-- `expected_state` in `preview_delivery`.
unfoldable pub expected_state : Capability → TaskState
unfolding is_merging
expected_state c = if is_merging c then awaiting_merge_approval else awaiting_delivery_approval

-- The pairs of an action and a source that `validate_action_target` refuses.
unfoldable pub is_wrong_target : GitHubAction → TaskSource → Bool
is_wrong_target (GitHubAction.close_issue _) (github_issue _) = false
is_wrong_target (GitHubAction.close_issue _) _ = true
is_wrong_target (GitHubAction.comment _ _) (github_issue _) = false
is_wrong_target (GitHubAction.comment _ _) (github_pull_request _) = false
is_wrong_target (GitHubAction.comment _ _) _ = true
is_wrong_target (GitHubAction.review _ _ _ _ _) (github_pull_request _) = false
is_wrong_target (GitHubAction.review _ _ _ _ _) _ = true
is_wrong_target (GitHubAction.resolve_review_thread _ _ _) (github_pull_request _) = false
is_wrong_target (GitHubAction.resolve_review_thread _ _ _) _ = true
is_wrong_target (GitHubAction.update_pull_request_branch _ _) (github_pull_request _) = false
is_wrong_target (GitHubAction.update_pull_request_branch _ _) _ = true
is_wrong_target (GitHubAction.ready_pull_request _ _) (github_pull_request _) = false
is_wrong_target (GitHubAction.ready_pull_request _ _) _ = true
is_wrong_target (GitHubAction.close_pull_request _ _) (github_pull_request _) = false
is_wrong_target (GitHubAction.close_pull_request _ _) _ = true
is_wrong_target (GitHubAction.enqueue_pull_request _ _) (github_pull_request _) = false
is_wrong_target (GitHubAction.enqueue_pull_request _ _) _ = true
is_wrong_target (GitHubAction.merge_pull_request _ _ _) (github_pull_request _) = false
is_wrong_target (GitHubAction.merge_pull_request _ _ _) _ = true
is_wrong_target _ _ = false

-- The base of a draft pull request, when it is not the default branch.
unfoldable pub is_wrong_base : GitHubAction → RepositoryBinding → Bool
is_wrong_base (GitHubAction.draft_pull_request _ _ base _ _ _) binding =
    not (base == binding.default_branch)
is_wrong_base _ binding = false

abbrev pub prepared_branch : Tools → ℕ → Text
prepared_branch tools task_id = codes "patchwright/" ++ tools.task_name task_id

-- The test on the number that an action names.
unfoldable pub is_wrong_number : Option ℕ → Option ℕ → Bool
is_wrong_number none source_number = false
is_wrong_number (some number) source_number = not (some number == source_number)

unfoldable pub validate_action_target :
    Tools → TaskContract → RepositoryBinding → ℕ → GitHubAction → Delivered Unit
validate_action_target tools contract binding task_id action = do
  reject_if (is_wrong_number (pull_request_number action) (item_number contract.source))
      action_target_mismatch
  reject_if (is_wrong_target action contract.source) action_target_mismatch
  reject_if (is_some_and (branch action) (λ name. not (name == prepared_branch tools task_id)))
      branch_mismatch
  reject_if (is_wrong_base action binding) branch_mismatch

-- `head_matches` and `base_matches`: the commit that the action expects, the one of the
-- precondition, and the one of the contract.
unfoldable pub matches_sha : Option Text → Option Text → Option Text → Bool
matches_sha none bound declared = not (is_some_and bound (λ _. true))
matches_sha (some expected) bound declared =
    bound == some expected && is_none_or declared (λ sha. sha == expected)

unfoldable pub validate_bound_preconditions : GitHubActionPreview → TaskContract → Delivered Unit
validate_bound_preconditions preview contract =
    reject_if
      (not (
        matches_sha (expected_head_sha preview.action) preview.precondition.expected_head_sha
          contract.head_sha
        && matches_sha (expected_base_sha preview.action) preview.precondition.expected_base_sha
            contract.base_sha))
      precondition_mismatch

-- The head that a check run must be for.
unfoldable pub expected_head : Tools → Task → Option Text → Option Text
expected_head tools task none = tools.inspect_head task.repository_path
expected_head tools task (some sha) = some sha

unfoldable pub validate_action_sha : Tools → Task → TaskContract → GitHubAction → Delivered Unit
validate_action_sha tools task contract (GitHubAction.create_branch _ from_sha) =
    reject_if (not (contract.base_sha == some from_sha)) precondition_mismatch
validate_action_sha tools task contract (GitHubAction.check_run _ head_sha _ _) =
    reject_if (not (expected_head tools task contract.head_sha == some head_sha))
      precondition_mismatch
validate_action_sha tools task contract _ = ok tt

-- `map_err(|_| FingerprintInvalid)`.
abbrev pub or_invalid : Result ApprovalError ActionFingerprint → Delivered ActionFingerprint
or_invalid (ok fingerprint) = ok fingerprint
or_invalid (err e) = err fingerprint_invalid

-- The draft of the fingerprint of a preview.
abbrev pub fingerprint_draft : ℕ → GitHubActionPreview → Text → Text → ActionFingerprintDraft
fingerprint_draft task_id action policy_sha256 instruction_sha256 = record {
  task_id = task_id;
  github_repository_id = action.remote.repository_id;
  repository_full_name = action.remote.repository_full_name;
  action_kind = action_kind action.action;
  pull_request_number = pull_request_number action.action;
  branch = branch action.action;
  head_sha = action.precondition.expected_head_sha;
  base_sha = action.precondition.expected_base_sha;
  payload_sha256 = action.payload_sha256;
  policy_sha256 = policy_sha256;
  instruction_sha256 = instruction_sha256;
  invalidation_generation = action.precondition.snapshot_generation;
}

-- Whether the remote of a preview is another repository than the binding's.
unfoldable pub is_other_remote : GitHubActionPreview → RepositoryBinding → Bool
is_other_remote action binding =
    not (action.remote.repository_id == binding.github_repository_id)
    || not (action.remote.installation_id == binding.installation_id)
    || not (action.remote.repository_full_name == binding.full_name)

unfoldable pub is_other_source : TaskSource → RepositoryBinding → Bool
is_other_source source binding =
    is_some_and (Source.repository_id source) (λ id. not (id == binding.github_repository_id))
    || is_some_and (Source.repository_full_name source) (λ name. not (name == binding.full_name))

unfoldable pub preview_delivery :
    Tools → TaskTables → ℕ → GitHubActionPreview → Delivered DeliveryPreview
preview_delivery tools db task_id action = do
  task ← ok_or (load_task task_id db) task_missing
  contract ← ok_or (task_contract task_id db) contract_missing
  reject_if (not (task.state == expected_state (capability action.action))) task_state_invalid
  reject_if (not (contains contract.required_capabilities (capability action.action)))
      capability_not_declared
  binding_id ← ok_or task.repository_binding_id binding_missing
  reject_if (not (binding_id == contract.repository_binding_id)) binding_mismatch
  binding ← ok_or (repository_binding binding_id db) binding_missing
  reject_if (is_other_remote action binding) remote_mismatch
  reject_if (is_other_source contract.source binding) source_mismatch
  validate_action_target tools contract binding task_id action.action
  validate_bound_preconditions action contract
  validate_action_sha tools task contract action.action
  instructions ← ok_or (tools.instructions_json contract.instruction_digests) serialization
  fingerprint ← or_invalid (
      try_from (
        fingerprint_draft task_id action (tools.sha256 (codes "patchwright-policy-v1"))
          (tools.sha256 instructions)))
  ok (record { task_id = task_id; action = action; fingerprint = fingerprint })
