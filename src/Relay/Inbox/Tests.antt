-- ===== src/Relay/Inbox/Tests.antt =====
-- Runs of the inbox of crates/patchwright-relay/src/webhook.rs, and the theorems at them.
use patchwright.Prelude.{ℕ, ◌<◌, ◌≤◌, ◌≡◌, ◌≢◌, ◌+◌, refl, true, [], ◌∷◌, ◌++◌, any, count, arith}
use patchwright.Prelude.Text.{Text, codes}
use patchwright.Relay.Inbox.{
  WebhookDelivery, RelayState, accepted, duplicate, full, is_pending, has_delivery_id, new_row,
  prune_forwarded_deliveries, next_rowid, record_pruned, record_delivery, mark_forwarded,
  defer_delivery, open_inbox, new, delivery_count, pending_delivery_count, backoff,
  forwarded_retention,
}
use patchwright.Relay.Inbox.Pruning.{pending, HasUniqueRowids}
use patchwright.Relay.Inbox.Steps.{IsBounded}
use patchwright.Relay.Inbox.Recording.{record_delivery-pending}
use patchwright.Relay.Inbox.Histories.{here, then, recorded, marked, put_off, reopened, new-Reach}

abbrev pub delivery_of : Text → WebhookDelivery
delivery_of id = record {
  delivery_id = id;
  event = codes "pull_request";
  action = codes "opened";
  payload = codes "{}";
  payload_sha256 = codes "aa";
}

abbrev pub opened : RelayState
opened = new

abbrev pub with_one : RelayState
with_one = (record_delivery 2000 (delivery_of (codes "one")) opened).0

pub with_one-IsBounded : IsBounded with_one
unfolding new record_delivery record_pruned prune_forwarded_deliveries next_rowid
with_one-IsBounded = record { rowids = (refl, tt); waiting = omega arith; kept = omega arith }

-- The queue holds what it has room for, and knows what it holds.
queue_full :
    (record_delivery 3000 (delivery_of (codes "two")) (record with_one { queue_capacity = 1 })).1
    ≡ full
unfolding new record_delivery record_pruned prune_forwarded_deliveries next_rowid
queue_full = refl

-- An acknowledged delivery is known for three days.
known_for_days :
    (record_delivery 4000
      (delivery_of (codes "one"))
      (mark_forwarded 3000 (codes "one") with_one).0).1
    ≡ duplicate
unfolding new record_delivery record_pruned prune_forwarded_deliveries next_rowid mark_forwarded
known_for_days = refl

known_no_more :
    (record_delivery
      (forwarded_retention + 5000)
      (delivery_of (codes "one"))
      (mark_forwarded 3000 (codes "one") with_one).0).1
    ≡ accepted
unfolding new record_delivery record_pruned prune_forwarded_deliveries next_rowid mark_forwarded
known_no_more = refl

first_pauses : (backoff 0 ≡ 200) × (backoff 3 ≡ 1600) × (backoff 20 ≡ 51200)
unfolding backoff
first_pauses = (refl, refl, refl)

record_delivery-pending_example :
    ((record_delivery 3000 (delivery_of (codes "two")) with_one).1 ≡ accepted
      → (count is_pending with_one.inbox < with_one.queue_capacity)
        × ((rowid : ℕ) × (pending
                (record_delivery 3000 (delivery_of (codes "two")) with_one).0.inbox
              ≡ pending with_one.inbox ++ new_row 3000 rowid (delivery_of (codes "two")) ∷ [])))
    × ((record_delivery 3000 (delivery_of (codes "two")) with_one).1 ≢ accepted
        → pending (record_delivery 3000 (delivery_of (codes "two")) with_one).0.inbox
          ≡ pending with_one.inbox)
    × (any (pending with_one.inbox) (has_delivery_id (codes "two")) ≡ true
        → (record_delivery 3000 (delivery_of (codes "two")) with_one).1 ≡ duplicate)
record_delivery-pending_example =
    record_delivery-pending 3000 (delivery_of (codes "two")) with_one with_one-IsBounded

abbrev deferred_once : RelayState
deferred_once = (defer_delivery 3000 (codes "one") with_one).0

abbrev acknowledged_once : RelayState
acknowledged_once = (mark_forwarded 4000 (codes "one") deferred_once).0

new-Reach_example :
    HasUniqueRowids (open_inbox 5000 acknowledged_once.inbox).inbox
    × (pending_delivery_count (open_inbox 5000 acknowledged_once.inbox) ≤ 10000)
    × (delivery_count (open_inbox 5000 acknowledged_once.inbox) ≤ 20000)
new-Reach_example = new-Reach (
    then
      (then
        (then (then here (recorded 2000 (delivery_of (codes "one")) opened))
          (put_off 3000 (codes "one") with_one))
        (marked 4000 (codes "one") deferred_once))
      (reopened 5000 acknowledged_once))
