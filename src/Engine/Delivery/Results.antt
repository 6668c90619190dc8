-- ===== src/Engine/Delivery/Results.antt =====
-- The results of a delivery (crates/patchwright-engine/src/delivery.rs). `clock` gives the successive
-- readings of the clock in one call.
use patchwright.Prelude.{
  ℕ, ◌+◌, Bool, true, false, not, ◌&&◌, ◌||◌, List, [], ◌∷◌, Option, none, some, ◌==◌,
  if◌then◌else◌, Result, ok, err, ◌>>=◌,
}
use patchwright.Prelude.Text.{Text, codes}
use patchwright.Domain.{
  Task, TaskState, task_state_eq, transition, awaiting_delivery_approval, delivering, monitoring,
  awaiting_merge_approval, merging, completed,
}
use patchwright.Policy.Capabilities.{
  Capability, capability_eq, create_pull_request, post_review, update_pull_request_branch,
  ready_pull_request, close_issue, close_pull_request, merge_pull_request,
}
use patchwright.Engine.TaskStore.{TaskTables, load_task}
use patchwright.Engine.TaskStore.Deliveries.{
  DeliveryStoreError, complete_delivery, mark_delivery_ambiguous,
  complete_delivery_with_task_events, complete_failed_merge_delivery,
}
use patchwright.Engine.Delivery.{
  DeliveryPreview, delivery_preview_eq, task_missing, persistence, Delivered, is_merging,
}
use patchwright.Engine.Delivery.Execution.{capability_of, or_persistence}

-- A row of a `lifecycle` table.
pub record Stage : Type 0 where
  pub state : TaskState
  pub next : TaskState
  pub summary : Text

abbrev pub merge_lifecycle : List Stage
merge_lifecycle =
    record {
      state = merging;
      next = completed;
      summary = codes "GitHub confirmed the approved merge completed";
    }
    ∷ []

abbrev pub close_lifecycle : List Stage
close_lifecycle =
    record {
      state = awaiting_delivery_approval;
      next = delivering;
      summary = codes "Approved terminal GitHub delivery started";
    }
    ∷ record {
      state = delivering;
      next = monitoring;
      summary = codes "GitHub accepted the terminal delivery; reconciling remote state";
    }
    ∷ record {
      state = monitoring;
      next = completed;
      summary = codes "GitHub confirmed the closed task outcome completed";
    }
    ∷ []

abbrev pub monitoring_lifecycle : List Stage
monitoring_lifecycle =
    record {
      state = awaiting_delivery_approval;
      next = delivering;
      summary = codes "Approved GitHub delivery started";
    }
    ∷ record {
      state = delivering;
      next = monitoring;
      summary = codes "GitHub accepted the delivery; fresh CI and review evidence is required";
    }
    ∷ []

-- `lifecycle[start..]` for the position of the state.
unfoldable pub stages_from : TaskState → List Stage → Option (List Stage)
stages_from state [] = none
stages_from state (stage ∷ stages) =
    let rest = stages_from state stages in
    if stage.state == state then some (stage ∷ stages) else rest

-- The loop that moves the task through the stages and collects the events.
unfoldable pub advance : (ℕ → ℕ) → ℕ → List Stage → Task → Delivered (List (Task × Text))
advance clock n [] task = ok []
advance clock n (stage ∷ stages) task =
    let rest = advance clock (n + 1) stages (transition (clock n) stage.next task).0 in
    do
      moved ← or_persistence (transition (clock n) stage.next task)
      events ← rest
      ok ((moved, stage.summary) ∷ events)

unfoldable pub enters_monitoring : Capability → Bool
enters_monitoring create_pull_request = true
enters_monitoring post_review = true
enters_monitoring update_pull_request_branch = true
enters_monitoring ready_pull_request = true
enters_monitoring _ = false

-- `terminal` in `complete_successful_delivery`.
unfoldable pub is_terminal : Capability → Bool → Bool
is_terminal c merged =
    c == close_issue || c == close_pull_request || (c == merge_pull_request && merged)

unfoldable pub lifecycle_of : Capability → List Stage
unfolding enters_monitoring
lifecycle_of c =
    if c == merge_pull_request
    then merge_lifecycle
    else if enters_monitoring c
    then monitoring_lifecycle
    else close_lifecycle

-- `map_err(persistence)`.
abbrev pub or_store_error :
    TaskTables × Result DeliveryStoreError Unit → TaskTables × Delivered Unit
or_store_error (db, ok done) = (db, ok done)
or_store_error (db, err e) = (db, err (persistence none))

abbrev pub finish_with :
    ℕ → Text → Text → Delivered (List (Task × Text)) → TaskTables → TaskTables × Delivered Unit
finish_with now key result (ok events) db =
    or_store_error (complete_delivery_with_task_events now key result events db)
finish_with now key result (err e) db = (db, err e)

-- The end of `complete_successful_delivery`, by the stages that are left, if any.
abbrev pub finish_stages :
    (ℕ → ℕ) → Text → Text → Task → Option (List Stage) → TaskTables → TaskTables × Delivered Unit
finish_stages clock key result task none db =
    or_store_error (complete_delivery (clock 0) key result db)
finish_stages clock key result task (some stages) db =
    finish_with (clock 0) key result (advance clock 1 stages task) db

abbrev pub finish_loaded :
    (ℕ → ℕ) → Text → Text → Capability → Option Task → TaskTables → TaskTables × Delivered Unit
finish_loaded clock key result c none db = (db, err task_missing)
finish_loaded clock key result c (some task) db =
    if task.state == completed
    then finish_with (clock 0) key result (ok []) db
    else finish_stages clock key result task (stages_from task.state (lifecycle_of c)) db

unfoldable pub complete_successful_delivery :
    (ℕ → ℕ) → DeliveryPreview → Text → Text → Bool → TaskTables → TaskTables × Delivered Unit
complete_successful_delivery clock preview key result merged db =
    if not (is_terminal (capability_of preview) merged)
      && not (enters_monitoring (capability_of preview))
    then or_store_error (complete_delivery (clock 0) key result db)
    else finish_loaded clock key result (capability_of preview) (load_task preview.task_id db) db

abbrev pub fail_moved : ℕ → Text → Text → Delivered Task → TaskTables → TaskTables × Delivered Unit
fail_moved now key result (ok task) db = or_store_error (
    complete_failed_merge_delivery now key result task
      (codes "GitHub definitively rejected the merge; fresh merge approval is required") db)
fail_moved now key result (err e) db = (db, err e)

abbrev pub fail_loaded :
    (ℕ → ℕ) → Text → Text → Option Task → TaskTables → TaskTables × Delivered Unit
fail_loaded clock key result none db = (db, err task_missing)
fail_loaded clock key result (some task) db =
    if not (task.state == merging)
    then or_store_error (complete_delivery (clock 0) key result db)
    else fail_moved (clock 0) key result
        (or_persistence (transition (clock 1) awaiting_merge_approval task)) db

unfoldable pub complete_failed_delivery :
    (ℕ → ℕ) → DeliveryPreview → Text → Text → TaskTables → TaskTables × Delivered Unit
unfolding is_merging
complete_failed_delivery clock preview key result db =
    if not (is_merging (capability_of preview))
    then or_store_error (complete_delivery (clock 0) key result db)
    else fail_loaded clock key result (load_task preview.task_id db) db

unfoldable pub record_ambiguous_delivery : Text → Text → TaskTables → TaskTables × Delivered Unit
record_ambiguous_delivery key result db = or_store_error (mark_delivery_ambiguous key result db)
