-- ===== src/Engine/TaskStore/Histories.antt =====
-- Sequences of operations on the tables of tasks, approvals, preparations and deliveries
-- (crates/patchwright-engine/src/store.rs).
use patchwright.Prelude.{ℕ, Option, List, [], ◌∷◌}
use patchwright.Prelude.Text.{Text}
use patchwright.Domain.{Task}
use patchwright.Contract.Tasks.{TaskContract}
use patchwright.Policy.Fingerprints.{ActionFingerprint}
use patchwright.Policy.{Approval}
use patchwright.Engine.TaskStore.{
  TaskTables, save_task, save_task_events, save_task_contract, save_approval,
  invalidate_task_approvals,
}
use patchwright.Engine.TaskStore.Deliveries.{
  claim_delivery_with_task_event, complete_delivery, mark_delivery_ambiguous,
  complete_delivery_with_task_events, complete_failed_merge_delivery,
}
use patchwright.Engine.TaskStore.Preparations.{
  claim_preparation, complete_preparation_claim, recover_interrupted_preparations,
}

-- What SQLite and a hash compute for the store.
pub record Outside : Type 0 where
  pub state_of : Text → Option Text
  pub julianday : ℕ → ℕ
  pub digest : ActionFingerprint → Text

-- An operation on these tables, with any arguments. `restarts` is the opening of the database.
pub data Operation : Type 0 where
  saves_task : (task : Task) (summary : Text) → Operation
  saves_events : (events : List (Task × Text)) → Operation
  saves_contract : (contract : TaskContract) → Operation
  saves_approval : (approval : Approval) → Operation
  invalidates : (now task_id : ℕ) → Operation
  claims_delivery : (now : ℕ) (key : Text) (event : Option (Task × Text)) → Operation
  completes_delivery : (now : ℕ) (key result : Text) → Operation
  marks_ambiguous : (key result : Text) → Operation
  completes_with_events : (now : ℕ) (key result : Text) (events : List (Task × Text)) → Operation
  fails_merge : (now : ℕ) (key result : Text) (task : Task) (summary : Text) → Operation
  claims_preparation : (approval_id task_id : ℕ) (action_digest : Text) (now : ℕ) → Operation
  completes_preparation : (now approval_id : ℕ) (result : Text) → Operation
  restarts : (now : ℕ) → Operation

unfoldable pub perform : Outside → Operation → TaskTables → TaskTables
perform out (saves_task task summary) db = save_task task summary db
perform out (saves_events events) db = save_task_events events db
perform out (saves_contract contract) db = save_task_contract contract db
perform out (saves_approval approval) db = save_approval out.digest approval db
perform out (invalidates now task_id) db = (invalidate_task_approvals now task_id db).0
perform out (claims_delivery now key event) db =
    (claim_delivery_with_task_event out.state_of now key event db).0
perform out (completes_delivery now key result) db = (complete_delivery now key result db).0
perform out (marks_ambiguous key result) db = (mark_delivery_ambiguous key result db).0
perform out (completes_with_events now key result events) db =
    (complete_delivery_with_task_events now key result events db).0
perform out (fails_merge now key result task summary) db =
    (complete_failed_merge_delivery now key result task summary db).0
perform out (claims_preparation approval_id task_id action_digest now) db =
    (claim_preparation out.julianday approval_id task_id action_digest now db).0
perform out (completes_preparation now approval_id result) db =
    (complete_preparation_claim now approval_id result db).0
perform out (restarts now) db = recover_interrupted_preparations now db

unfoldable pub perform_all : Outside → List Operation → TaskTables → TaskTables
unfolding perform
perform_all out [] db = db
perform_all out (op ∷ ops) db = perform_all out ops (perform out op db)
