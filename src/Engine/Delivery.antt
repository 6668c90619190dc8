-- ===== src/Engine/Delivery.antt =====
-- crates/patchwright-engine/src/delivery.rs: the preview of an action, its approval and its
-- execution on the store's tables. The store is taken to read what it wrote, so that no operation
-- fails on a stored text.
pub mod Previews
pub mod Execution
pub mod Results
pub mod Authority
mod Tests
use Prim.Native.String.{String}
use patchwright.Prelude.{
  ℕ, Bool, true, false, Eq, discrete_eq, ℕ_discrete, List, Option, none, some, Result, ok, err,
}
use patchwright.Prelude.Text.{Text}
use patchwright.Domain.{ValidationError}
use patchwright.Contract.Parts.{InstructionDigest}
use patchwright.Policy.Capabilities.{Capability, merge_pull_request, enqueue_pull_request}
use patchwright.Policy.Fingerprints.{ActionFingerprint}
use patchwright.Actions.Remotes.{GitHubActionPreview}
use patchwright.Engine.TaskStore.Histories.{Outside}

pub record DeliveryPreview : Type 0 where
  pub task_id : ℕ
  pub action : GitHubActionPreview
  pub fingerprint : ActionFingerprint

unfoldable pub DeliveryPreview-discrete : Discrete DeliveryPreview
DeliveryPreview-discrete = hlevel ℕ_discrete

instance abbrev pub delivery_preview_eq : Eq DeliveryPreview
delivery_preview_eq = discrete_eq DeliveryPreview-discrete

pub data DeliveryError : Type 0 where
  task_missing contract_missing task_state_invalid capability_not_declared : DeliveryError
  binding_missing binding_mismatch remote_mismatch action_target_mismatch : DeliveryError
  branch_mismatch precondition_mismatch source_mismatch remote_item_missing : DeliveryError
  remote_not_completed fingerprint_invalid preview_stale approval_missing : DeliveryError
  approval_invalid policy_denied already_claimed serialization : DeliveryError
  persistence : Option ValidationError → DeliveryError

abbrev pub Delivered : Type 0 → Type 0
Delivered = Result DeliveryError

-- What other code computes for a delivery: hashes and JSON forms, the text of a task's UUID, the head
-- of a checkout, and what SQLite makes of a stored result.
pub record Tools : Type 0 where
  pub sha256 : Text → Text
  pub instructions_json : List InstructionDigest → Option Text
  pub task_name : ℕ → Text
  pub inspect_head : Text → Option Text
  pub outside : Outside
  pub unmerged_result : Text
  pub merged_result : Option Text → Text

-- `ok_or(error)`.
abbrev pub ok_or : {A : Type 0} → Option A → DeliveryError → Delivered A
ok_or none e = err e
ok_or (some a) e = ok a

-- `matches!(capability, MergePullRequest | EnqueuePullRequest)`.
unfoldable pub is_merging : Capability → Bool
is_merging merge_pull_request = true
is_merging enqueue_pull_request = true
is_merging _ = false
