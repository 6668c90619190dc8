-- ===== src/Engine/Delivery/Execution.antt =====
-- Approval and execution of a delivery (crates/patchwright-engine/src/delivery.rs).
-- `clock` gives the successive readings of the clock in one call.
use patchwright.Prelude.{
  ℕ, ◌+◌, ◌*◌, ◌^◌, Bool, true, false, not, Option, none, some, ◌==◌, if◌then◌else◌, Result, ok,
  err, ◌>>=◌, ◌>>◌, reject_if,
}
use patchwright.Prelude.Text.{Text, codes}
use patchwright.Domain.{Task, task_state_eq, ValidationError, transition, merging}
use patchwright.Policy.Capabilities.{Capability, capability_eq, github_delivery, merge}
use patchwright.Policy
use patchwright.Policy.Fingerprints.{ApprovalError}
use patchwright.Policy.{
  Policy, Approval, PolicyDecision, allowed, approval_required, denied, authorize,
}
use patchwright.Actions.{capability}
use patchwright.Engine.TaskStore.{TaskTables, load_task, save_approval, approval}
use patchwright.Engine.TaskStore.Deliveries.{claim_delivery_with_task_event}
use patchwright.Engine.Delivery.{
  DeliveryPreview, delivery_preview_eq, task_missing, preview_stale, approval_missing,
  approval_invalid, policy_denied, already_claimed, persistence, Delivered, Tools, ok_or,
  is_merging,
}
use patchwright.Engine.Delivery.Previews.{preview_delivery}

-- The preview of the same action now, which must be the one that is shown.
unfoldable pub fresh_preview : Tools → TaskTables → DeliveryPreview → Delivered Unit
fresh_preview tools db preview = do
  fresh ← preview_delivery tools db preview.task_id preview.action
  reject_if (not (fresh == preview)) preview_stale

abbrev pub capability_of : DeliveryPreview → Capability
capability_of preview = capability preview.action.action

abbrev pub or_approval_invalid : Result ApprovalError Approval → Delivered Approval
or_approval_invalid (ok approval) = ok approval
or_approval_invalid (err e) = err approval_invalid

abbrev pub ten_minutes : ℕ
ten_minutes = 10 * 60 * 10 ^ 9

-- What `approve_delivery` stores.
unfoldable pub new_approval :
    Tools → ℕ → ℕ → DeliveryPreview → Text → TaskTables → Delivered Approval
unfolding is_merging
new_approval tools id now preview approved_by db = do
  fresh_preview tools db preview
  or_approval_invalid (
      Policy.new id (if is_merging (capability_of preview) then merge else github_delivery)
        (capability_of preview) preview.fingerprint approved_by now (now + ten_minutes))

abbrev pub saved : Tools → Delivered Approval → TaskTables → TaskTables × Delivered Approval
saved tools (ok approval) db = (save_approval tools.outside.digest approval db, ok approval)
saved tools (err e) db = (db, err e)

unfoldable pub approve_delivery :
    Tools → ℕ → ℕ → DeliveryPreview → Text → TaskTables → TaskTables × Delivered Approval
approve_delivery tools id now preview approved_by db =
    saved tools (new_approval tools id now preview approved_by db) db

abbrev pub or_refused : PolicyDecision → Delivered Unit
or_refused allowed = ok tt
or_refused (approval_required _ _) = err approval_invalid
or_refused (denied _) = err policy_denied

-- `map_err(|error| Persistence(error.to_string()))` on a transition.
abbrev pub or_persistence : Task × Result ValidationError Unit → Delivered Task
or_persistence (task, ok moved) = ok task
or_persistence (task, err e) = err (persistence (some e))

abbrev pub merging_event : ℕ → Option Task → Delivered (Option (Task × Text))
merging_event now found = do
  task ← ok_or found task_missing
  task ← or_persistence (transition now merging task)
  ok (some (task, codes "Approved merge execution started"))

-- `task_event` in `authorize_execution`.
unfoldable pub merge_event : ℕ → DeliveryPreview → TaskTables → Delivered (Option (Task × Text))
unfolding is_merging
merge_event now preview db =
    if is_merging (capability_of preview)
    then merging_event now (load_task preview.task_id db)
    else ok none

-- What `authorize_execution` checks before its claim.
unfoldable pub checked_execution :
    Tools → Policy → (ℕ → ℕ) → DeliveryPreview → ℕ → TaskTables → Delivered (Option (Task × Text))
checked_execution tools policy clock preview approval_id db = do
  fresh_preview tools db preview
  granted ← ok_or (approval approval_id db) approval_missing
  or_refused (authorize policy (capability_of preview) preview.fingerprint (some granted) (clock 0))
  merge_event (clock 1) preview db

abbrev pub answered : Text → TaskTables × Bool → TaskTables × Delivered Text
answered key (db, true) = (db, ok key)
answered key (db, false) = (db, err already_claimed)

abbrev pub claim_checked :
    Tools → ℕ → Text → Delivered (Option (Task × Text)) → TaskTables → TaskTables × Delivered Text
claim_checked tools now key (ok event) db =
    answered key (claim_delivery_with_task_event tools.outside.state_of now key event db)
claim_checked tools now key (err e) db = (db, err e)

unfoldable pub authorize_execution :
    Tools → Policy → (ℕ → ℕ) → DeliveryPreview → ℕ → TaskTables → TaskTables × Delivered Text
authorize_execution tools policy clock preview approval_id db =
    claim_checked tools (clock 2) preview.action.idempotency_sha256
      (checked_execution tools policy clock preview approval_id db) db
