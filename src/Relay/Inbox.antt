-- ===== src/Relay/Inbox.antt =====
-- The durable inbox of crates/patchwright-relay/src/webhook.rs: the table `webhook_deliveries` with
-- the methods of `RelayState` that act on it. A method returns the state that it leaves behind.
-- Times are nanoseconds from a fixed origin; the texts that the table holds for them are in the
-- order of the times. The counts of rows are SQLite's, so they fit in 64 bits with a sign.
pub mod Pruning
pub mod Steps
pub mod Recording
pub mod Histories
mod Tests
use Prim.Native.String.{String}
use patchwright.Prelude.{
  ℕ, ◌+◌, ◌-◌, ◌*◌, ◌^◌, Bool, true, false, not, ◌&&◌, ◌||◌, Option, none, some, List, [], ◌∷◌,
  ◌++◌, Result, ok, err, ◌>>=◌, any, count, find, retain, take, length, ltb, leb, if◌then◌else◌,
  ◌==◌, list_eq, nat_eq,
}
use patchwright.Prelude.Text.{Text}
use patchwright.Prelude.Sorting.{sort_by}
use patchwright.Prelude.Tables.{update_where}

abbrev pub default_queue_capacity : ℕ
default_queue_capacity = 10000

abbrev pub default_forwarded_retention_capacity : ℕ
default_forwarded_retention_capacity = 10000

abbrev pub forward_batch_size : ℕ
forward_batch_size = 32

abbrev pub initial_retry_millis : ℕ
initial_retry_millis = 200

abbrev pub max_retry_millis : ℕ
max_retry_millis = 60000

abbrev pub nanos_per_milli : ℕ
nanos_per_milli = 1000000

-- `FORWARDED_RETENTION_DAYS`, in nanoseconds.
abbrev pub forwarded_retention : ℕ
forwarded_retention = 3 * 24 * 60 * 60 * 1000 * nanos_per_milli

abbrev pub max_u32 : ℕ
max_u32 = 2 ^ 32 - 1

pub record WebhookDelivery : Type 0 where
  pub delivery_id : Text
  pub event : Text
  pub action : Text
  pub payload : List ℕ
  pub payload_sha256 : Text

-- A row of `webhook_deliveries`, with the `rowid` that SQLite gives it.
pub record InboxRow : Type 0 where
  pub rowid : ℕ
  pub delivery_id : Text
  pub event : Text
  pub action : Text
  pub payload : List ℕ
  pub payload_sha256 : Text
  pub received_at : ℕ
  pub attempt_count : ℕ
  pub next_attempt_at : Option ℕ
  pub last_error : Option String
  pub forwarded_at : Option ℕ

pub record RelayState : Type 0 where
  pub inbox : List InboxRow
  pub queue_capacity : ℕ
  pub forwarded_retention_capacity : ℕ

pub data RecordOutcome : Type 0 where
  accepted duplicate full : RecordOutcome

pub data InboxError : Type 0 where
  disappeared out_of_range invalid_payload : InboxError

abbrev pub is_some : {A : Type 0} → Option A → Bool
is_some none = false
is_some (some a) = true

-- `forwarded_at IS NOT NULL`, `forwarded_at IS NULL`.
abbrev pub is_forwarded : InboxRow → Bool
is_forwarded row = is_some row.forwarded_at

abbrev pub is_pending : InboxRow → Bool
is_pending row = not (is_some row.forwarded_at)

abbrev pub has_delivery_id : Text → InboxRow → Bool
has_delivery_id id row = row.delivery_id == id

-- `delivery_id = ?1 AND forwarded_at IS NULL`.
abbrev pub is_pending_delivery : Text → InboxRow → Bool
is_pending_delivery id row = row.delivery_id == id && is_pending row

-- Forwarded, and received before the cutoff.
abbrev pub is_expired : ℕ → InboxRow → Bool
is_expired now row = is_forwarded row && ltb (row.received_at + forwarded_retention) now

-- `ORDER BY received_at, rowid`.
abbrev pub is_older : InboxRow → InboxRow → Bool
is_older a b =
    ltb a.received_at b.received_at || a.received_at == b.received_at && leb a.rowid b.rowid

-- The rows that the second `DELETE` of `prune_forwarded_deliveries` names.
abbrev pub oldest_forwarded : ℕ → List InboxRow → List InboxRow
oldest_forwarded excess rows = take excess (sort_by is_older (retain is_forwarded rows))

-- `rowid IN (..)`.
abbrev pub is_among : List InboxRow → InboxRow → Bool
is_among named row = any named (λ n. n.rowid == row.rowid)

-- The second `DELETE`, for an excess of forwarded rows.
abbrev pub delete_excess : ℕ → List InboxRow → List InboxRow
delete_excess excess rows =
    if ltb 0 excess
    then retain (λ row. not (is_among (oldest_forwarded excess rows) row)) rows
    else rows

unfoldable pub prune_forwarded_deliveries : ℕ → ℕ → List InboxRow → List InboxRow
prune_forwarded_deliveries capacity now rows =
    let kept = retain (λ row. not (is_expired now row)) rows in
    delete_excess (count is_forwarded kept - capacity) kept

-- The `rowid` of a new row: one more than the largest.
unfoldable pub next_rowid : List InboxRow → ℕ
next_rowid [] = 1
next_rowid (row ∷ rows) =
    let rest = next_rowid rows in if leb rest row.rowid then row.rowid + 1 else rest

abbrev pub new_row : ℕ → ℕ → WebhookDelivery → InboxRow
new_row now rowid delivery = record {
  rowid = rowid;
  delivery_id = delivery.delivery_id;
  event = delivery.event;
  action = delivery.action;
  payload = delivery.payload;
  payload_sha256 = delivery.payload_sha256;
  received_at = now;
  attempt_count = 0;
  next_attempt_at = none;
  last_error = none;
  forwarded_at = none;
}

-- `RelayState::record`, once the table is pruned.
unfoldable pub record_pruned :
    ℕ → WebhookDelivery → ℕ → List InboxRow → List InboxRow × RecordOutcome
record_pruned now delivery capacity rows =
    if any rows (has_delivery_id delivery.delivery_id)
    then (rows, duplicate)
    else if leb capacity (count is_pending rows)
    then (rows, full)
    else (rows ++ new_row now (next_rowid rows) delivery ∷ [], accepted)

-- `RelayState::record`.
unfoldable pub record_delivery : ℕ → WebhookDelivery → RelayState → RelayState × RecordOutcome
record_delivery now delivery state =
    let done =
      record_pruned now delivery state.queue_capacity
        (prune_forwarded_deliveries state.forwarded_retention_capacity now state.inbox) in
    (record state { inbox = done.0 }, done.1)

-- `RelayState::mark_forwarded`.
unfoldable pub mark_forwarded : ℕ → Text → RelayState → RelayState × Result InboxError Unit
mark_forwarded now id state =
    if count (is_pending_delivery id) state.inbox == 1
    then (
      record state {
        inbox = prune_forwarded_deliveries state.forwarded_retention_capacity now (
            update_where (is_pending_delivery id)
              (λ row. record row { forwarded_at = some now; last_error = none }) state.inbox);
      },
      ok tt,
    )
    else (state, err disappeared)

-- `backoff` in `defer_delivery`.
abbrev pub min : ℕ → ℕ → ℕ
min a b = if leb a b then a else b

unfoldable pub backoff : ℕ → ℕ
backoff attempts = min (initial_retry_millis * 2 ^ min attempts 8) max_retry_millis

-- The row that `defer_delivery` writes.
abbrev pub deferred : ℕ → ℕ → InboxRow → InboxRow
deferred now attempts row = record row {
  attempt_count = row.attempt_count + 1;
  next_attempt_at = some (now + backoff attempts * nanos_per_milli);
  last_error = some "engine unavailable";
}

-- `defer_delivery` once the row is read.
unfoldable pub defer_found :
    ℕ → Text → Option InboxRow → RelayState → RelayState × Result InboxError Unit
defer_found now id none state = (state, err disappeared)
defer_found now id (some row) state =
    if leb row.attempt_count max_u32
    then (
      record state {
        inbox = update_where (is_pending_delivery id) (deferred now row.attempt_count) state.inbox;
      },
      ok tt,
    )
    else (state, err out_of_range)

-- `RelayState::defer_delivery`.
unfoldable pub defer_delivery : ℕ → Text → RelayState → RelayState × Result InboxError Unit
defer_delivery now id state = defer_found now id (find (is_pending_delivery id) state.inbox) state

-- `RelayState::open` on an inbox that an earlier run left.
unfoldable pub open_inbox : ℕ → List InboxRow → RelayState
open_inbox now rows = record {
  inbox = prune_forwarded_deliveries default_forwarded_retention_capacity now rows;
  queue_capacity = default_queue_capacity;
  forwarded_retention_capacity = default_forwarded_retention_capacity;
}

-- `RelayState::new`: an inbox of its own, which holds nothing.
unfoldable pub new : RelayState
new = record {
  inbox = [];
  queue_capacity = default_queue_capacity;
  forwarded_retention_capacity = default_forwarded_retention_capacity;
}

-- `RelayState::delivery_count` and `RelayState::pending_delivery_count`.
unfoldable pub delivery_count : RelayState → ℕ
delivery_count state = length state.inbox

unfoldable pub pending_delivery_count : RelayState → ℕ
pending_delivery_count state = count is_pending state.inbox
