-- ===== src/Engine/TaskStore/Deliveries.antt =====
-- The table `deliveries` of crates/patchwright-engine/src/store.rs. `state_of` stands for SQLite's
-- `json_extract(result, '$.state')` of a valid JSON text, and is none for any other text.
use patchwright.Prelude.{
  ℕ, Bool, true, false, ◌&&◌, Option, none, some, List, [], ◌∷◌, ◌++◌, any, count, retain,
  if◌then◌else◌, ◌==◌, nat_eq, list_eq, option_eq, Result, ok, err, leb,
}
use patchwright.Prelude.Text.{Text, codes}
use patchwright.Prelude.Sorting.{sort_by}
use patchwright.Prelude.Tables.{update_where}
use patchwright.Domain.{Task}
use patchwright.Engine.TaskStore.{
  TaskTables, DeliveryRow, is_null, put_task, put_events, invalidate_task_approvals,
}

pub data DeliveryStoreError : Type 0 where
  not_claimed : DeliveryStoreError

abbrev pub has_key : Text → DeliveryRow → Bool
has_key key row = row.key == key

unfoldable pub is_state : (Text → Option Text) → Text → Option Text → Bool
is_state state_of state none = false
is_state state_of state (some result) = state_of result == some state

abbrev pub is_failed : (Text → Option Text) → DeliveryRow → Bool
is_failed state_of row = is_state state_of (codes "failed") row.result

abbrev pub is_retry : (Text → Option Text) → Text → DeliveryRow → Bool
is_retry state_of key row = row.key == key && is_failed state_of row

-- SQL's `COALESCE`.
abbrev pub coalesce : Option ℕ → Option ℕ → Option ℕ
coalesce none b = b
coalesce (some a) b = some a

abbrev pub reclaimed : ℕ → Option ℕ → DeliveryRow → DeliveryRow
reclaimed now task_id row = record row {
  claimed_at = now;
  result = none;
  completed_at = none;
  task_id = coalesce task_id row.task_id;
}

abbrev pub event_task : Option (Task × Text) → Option ℕ
event_task none = none
event_task (some (task, summary)) = some task.id

unfoldable pub put_event : Option (Task × Text) → TaskTables → TaskTables
put_event none db = db
put_event (some (task, summary)) db = put_task task summary db

abbrev pub new_delivery : Text → ℕ → Option ℕ → DeliveryRow
new_delivery key now task_id = record {
  key = key;
  result = none;
  claimed_at = now;
  completed_at = none;
  task_id = task_id;
}

-- `EventStore::claim_delivery_with_task_event`. The insertion changes nothing when the key is there.
unfoldable pub claim_delivery_with_task_event :
    (Text → Option Text) → ℕ → Text → Option (Task × Text) → TaskTables → TaskTables × Bool
claim_delivery_with_task_event state_of now key event db =
    if count (is_retry state_of key) db.deliveries == 1
    then (
      put_event event (record db {
        deliveries =
            update_where (is_retry state_of key) (reclaimed now (event_task event)) db.deliveries;
      }),
      true,
    )
    else if any db.deliveries (has_key key)
    then (db, false)
    else (
      put_event event (record db {
        deliveries = db.deliveries ++ new_delivery key now (event_task event) ∷ [];
      }),
      true,
    )

abbrev pub finished : Text → Option ℕ → DeliveryRow → DeliveryRow
finished result completed_at row = record row { result = some result; completed_at = completed_at }

abbrev pub finish : Text → Text → Option ℕ → TaskTables → TaskTables
finish key result completed_at db = record db {
  deliveries = update_where (has_key key) (finished result completed_at) db.deliveries;
}

-- `ensure!(updated == 1)` after a statement on its own, which is not undone.
abbrev pub ensure_one : ℕ → TaskTables → TaskTables × Result DeliveryStoreError Unit
ensure_one updated db = if updated == 1 then (db, ok tt) else (db, err not_claimed)

-- `EventStore::complete_delivery`.
unfoldable pub complete_delivery :
    ℕ → Text → Text → TaskTables → TaskTables × Result DeliveryStoreError Unit
complete_delivery now key result db =
    ensure_one (count (has_key key) db.deliveries) (finish key result (some now) db)

-- `EventStore::mark_delivery_ambiguous`.
unfoldable pub mark_delivery_ambiguous :
    Text → Text → TaskTables → TaskTables × Result DeliveryStoreError Unit
mark_delivery_ambiguous key result db =
    ensure_one (count (has_key key) db.deliveries) (finish key result none db)

-- `EventStore::complete_delivery_with_task_events`.
unfoldable pub complete_delivery_with_task_events :
    ℕ → Text → Text → List (Task × Text) → TaskTables → TaskTables × Result DeliveryStoreError Unit
complete_delivery_with_task_events now key result events db =
    if count (has_key key) db.deliveries == 1
    then (put_events events (finish key result (some now) db), ok tt)
    else (db, err not_claimed)

-- `EventStore::complete_failed_merge_delivery`.
unfoldable pub complete_failed_merge_delivery :
    ℕ → Text → Text → Task → Text → TaskTables → TaskTables × Result DeliveryStoreError Unit
complete_failed_merge_delivery now key result task summary db =
    if count (has_key key) db.deliveries == 1
    then (
      put_task task summary
          (invalidate_task_approvals now task.id (finish key result (some now) db)).0,
      ok tt,
    )
    else (db, err not_claimed)

abbrev pub is_ambiguous_for : (Text → Option Text) → ℕ → DeliveryRow → Bool
is_ambiguous_for state_of task_id row =
    row.task_id == some task_id
    && (is_null row.completed_at && is_state state_of (codes "ambiguous") row.result)

-- `ORDER BY claimed_at DESC`.
abbrev pub is_later : DeliveryRow → DeliveryRow → Bool
is_later a b = leb b.claimed_at a.claimed_at

abbrev pub first_key : List DeliveryRow → Option Text
first_key [] = none
first_key (row ∷ rows) = some row.key

-- `EventStore::ambiguous_delivery_for_task`.
unfoldable pub ambiguous_delivery_for_task : (Text → Option Text) → ℕ → TaskTables → Option Text
ambiguous_delivery_for_task state_of task_id db =
    first_key (sort_by is_later (retain (is_ambiguous_for state_of task_id) db.deliveries))
