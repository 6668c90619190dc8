-- ===== src/Engine/TaskStore.antt =====
-- The tables of tasks, approvals, preparations and deliveries of
-- crates/patchwright-engine/src/store.rs. A row holds the values that its texts stand for. `digest`
-- is `ActionFingerprint::digest_sha256`, a hash; `now` is the time that a statement asks for.
pub mod Deliveries
pub mod Preparations
pub mod Ledger
pub mod Histories
pub mod Exclusion
pub mod Claims
pub mod Approvals
pub mod Tests
use Prim.Native.String.{String}
use patchwright.Prelude.{
  ℕ, Bool, true, false, not, ◌&&◌, ◌||◌, Option, none, some, List, [], ◌∷◌, ◌++◌, any, count, find,
  retain, if◌then◌else◌, ◌==◌, nat_eq,
}
use patchwright.Prelude.Text.{Text}
use patchwright.Prelude.Tables.{update_where}
use patchwright.Domain.{Task}
use patchwright.Contract.Bindings.{RepositoryBinding}
use patchwright.Contract.Tasks.{TaskContract}
use patchwright.Policy.Capabilities.{Capability}
use patchwright.Policy.Fingerprints.{ActionFingerprint}
use patchwright.Policy.{Approval}

pub record TaskEvent : Type 0 where
  pub task : Task
  pub summary : Text

pub record ApprovalRow : Type 0 where
  pub id : ℕ
  pub task_id : ℕ
  pub capability : Capability
  pub action_digest : Text
  pub payload : Approval
  pub expires_at : ℕ
  pub invalidated_at : Option ℕ

pub record PreparationClaim : Type 0 where
  pub approval_id : ℕ
  pub task_id : ℕ
  pub action_digest : Text
  pub claimed_at : ℕ
  pub result : Option Text
  pub completed_at : Option ℕ

pub record DeliveryRow : Type 0 where
  pub key : Text
  pub result : Option Text
  pub claimed_at : ℕ
  pub completed_at : Option ℕ
  pub task_id : Option ℕ

pub record TaskTables : Type 0 where
  pub tasks : List Task
  pub task_events : List TaskEvent
  pub task_contracts : List TaskContract
  pub repository_bindings : List RepositoryBinding
  pub approvals : List ApprovalRow
  pub preparation_claims : List PreparationClaim
  pub deliveries : List DeliveryRow

abbrev pub is_null : Option ℕ → Bool
is_null none = true
is_null (some at) = false

abbrev pub is_task : ℕ → Task → Bool
is_task id task = task.id == id

-- `INSERT … ON CONFLICT DO UPDATE` on the rows that `conflicts` finds.
abbrev pub upsert : {A : Type 0} → (A → Bool) → (A → A) → A → List A → List A
upsert conflicts change row rows =
    if any rows conflicts then update_where conflicts change rows else rows ++ row ∷ []

-- The two statements that store a task with its event.
unfoldable pub put_task : Task → Text → TaskTables → TaskTables
put_task task summary db = record db {
  tasks = upsert (is_task task.id) (λ _. task) task db.tasks;
  task_events = db.task_events ++ record { task = task; summary = summary } ∷ [];
}

-- `EventStore::save_task`.
unfoldable pub save_task : Task → Text → TaskTables → TaskTables
unfolding put_task
save_task task summary db = put_task task summary db

-- The loop over the events of a transaction.
unfoldable pub put_events : List (Task × Text) → TaskTables → TaskTables
unfolding put_task
put_events [] db = db
put_events ((task, summary) ∷ events) db = put_events events (put_task task summary db)

-- `EventStore::save_task_events`.
unfoldable pub save_task_events : List (Task × Text) → TaskTables → TaskTables
unfolding put_events
save_task_events events db = put_events events db

-- `EventStore::load_task`.
unfoldable pub load_task : ℕ → TaskTables → Option Task
load_task id db = find (is_task id) db.tasks

abbrev pub is_binding : ℕ → RepositoryBinding → Bool
is_binding id binding = binding.id == id

-- `EventStore::repository_binding`.
unfoldable pub repository_binding : ℕ → TaskTables → Option RepositoryBinding
repository_binding id db = find (is_binding id) db.repository_bindings

abbrev pub is_contract : ℕ → TaskContract → Bool
is_contract task_id contract = contract.task_id == task_id

-- `EventStore::task_contract`.
unfoldable pub task_contract : ℕ → TaskTables → Option TaskContract
task_contract task_id db = find (is_contract task_id) db.task_contracts

-- `EventStore::save_task_contract`.
unfoldable pub save_task_contract : TaskContract → TaskTables → TaskTables
save_task_contract contract db = record db {
  task_contracts = upsert (is_contract contract.task_id) (λ _. contract) contract db.task_contracts;
}

abbrev pub is_approval : ℕ → ApprovalRow → Bool
is_approval id row = row.id == id

-- `EventStore::save_approval`. A conflict leaves the task, the capability and the invalidation.
unfoldable pub save_approval : (ActionFingerprint → Text) → Approval → TaskTables → TaskTables
save_approval digest approval db = record db {
  approvals =
      upsert (is_approval approval.id)
        (λ row. record row {
          payload = approval;
          action_digest = digest approval.fingerprint;
          expires_at = approval.expires_at;
        })
        (record {
          id = approval.id;
          task_id = approval.fingerprint.task_id;
          capability = approval.capability;
          action_digest = digest approval.fingerprint;
          payload = approval;
          expires_at = approval.expires_at;
          invalidated_at = none;
        })
        db.approvals;
}

abbrev pub is_open_approval : ℕ → ApprovalRow → Bool
is_open_approval id row = row.id == id && is_null row.invalidated_at

abbrev pub payload_of : Option ApprovalRow → Option Approval
payload_of none = none
payload_of (some row) = some row.payload

-- `EventStore::approval`.
unfoldable pub approval : ℕ → TaskTables → Option Approval
approval id db = payload_of (find (is_open_approval id) db.approvals)

abbrev pub is_open_for : ℕ → ApprovalRow → Bool
is_open_for task_id row = row.task_id == task_id && is_null row.invalidated_at

abbrev pub invalidated : ℕ → ApprovalRow → ApprovalRow
invalidated now row = record row { invalidated_at = some now }

-- `EventStore::invalidate_task_approvals`.
unfoldable pub invalidate_task_approvals : ℕ → ℕ → TaskTables → TaskTables × ℕ
invalidate_task_approvals now task_id db = (
  record db { approvals = update_where (is_open_for task_id) (invalidated now) db.approvals },
  count (is_open_for task_id) db.approvals,
)
