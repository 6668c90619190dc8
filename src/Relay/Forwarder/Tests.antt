-- ===== src/Relay/Forwarder/Tests.antt =====
-- A run of the forwarder of crates/patchwright-relay/src/webhook.rs, and the theorems at it.
use patchwright.Prelude.{
  ℕ, ◌+◌, ◌*◌, ◌≤◌, ◌≡◌, refl, Bool, true, some, List, Result, ok, All, count, arith, ◌==◌, list_eq,
  nat_eq,
}
use patchwright.Prelude.Text.{codes}
use patchwright.Relay.Inbox.{
  RelayState, is_pending, is_pending_delivery, nanos_per_milli, record_delivery, record_pruned,
  mark_forwarded, prune_forwarded_deliveries, next_rowid, defer_delivery, defer_found, backoff,
}
use patchwright.Relay.Inbox.Steps.{IsBounded}
use patchwright.Relay.Forwarder.{
  ForwardedWebhook, ForwardSummary, is_due, text_leb, due_deliveries, forward_one, forward_each,
  forward_pending_once,
}
use patchwright.Relay.Forwarder.Batches.{forward_pending_once-balance}
use patchwright.Relay.Forwarder.Backoff.{defer_delivery-due}
use patchwright.Relay.Inbox

abbrev first : Inbox.WebhookDelivery
first = record {
  delivery_id = codes "a1";
  event = codes "check_run";
  action = codes "created";
  payload = codes "{}";
  payload_sha256 = codes "aa";
}

abbrev second : Inbox.WebhookDelivery
second = record first { delivery_id = codes "b2" }

abbrev two_waiting : RelayState
two_waiting = (record_delivery 3000 second (record_delivery 2000 first Inbox.new).0).0

two_waiting-IsBounded : IsBounded two_waiting
unfolding Inbox.new record_delivery record_pruned prune_forwarded_deliveries next_rowid
two_waiting-IsBounded = record {
  rowids = (refl, (refl, tt));
  waiting = omega arith;
  kept = omega arith;
}

-- An engine that takes the first delivery only.
abbrev takes_first : ForwardedWebhook (List ℕ) → Bool
takes_first webhook = webhook.delivery_id == codes "a1"

abbrev batch : RelayState × Result Inbox.InboxError ForwardSummary
batch = forward_pending_once some (λ t. t) takes_first (λ id. 5000) 4000 two_waiting

one_forwarded : batch.1 ≡ ok (record { attempted = 2; forwarded = 1 })
unfolding Inbox.new record_delivery record_pruned prune_forwarded_deliveries next_rowid
    mark_forwarded defer_delivery defer_found backoff text_leb due_deliveries forward_one
    forward_each forward_pending_once
one_forwarded = refl

forward_pending_once-balance_example :
    IsBounded batch.0
    × ((summary : ForwardSummary)
        → batch.1 ≡ ok summary
        → (count is_pending batch.0.inbox + summary.forwarded ≡ count is_pending two_waiting.inbox)
          × (summary.forwarded ≤ summary.attempted)
          × (summary.attempted ≤ 32))
forward_pending_once-balance_example =
    forward_pending_once-balance some (λ t. t) takes_first (λ id. 5000) 4000 two_waiting
      two_waiting-IsBounded

deferral_succeeds : (defer_delivery 5000 (codes "b2") two_waiting).1 ≡ ok tt
unfolding Inbox.new record_delivery record_pruned prune_forwarded_deliveries next_rowid
    defer_delivery defer_found
deferral_succeeds = refl

defer_delivery-due_example :
    All
      (λ row.
        is_pending_delivery (codes "b2") row ≡ true
        → is_due (λ t. t) (5000 + 60000 * nanos_per_milli) row ≡ true)
      (defer_delivery 5000 (codes "b2") two_waiting).0.inbox
defer_delivery-due_example =
    defer_delivery-due (λ t. t) 5000 (5000 + 60000 * nanos_per_milli) (codes "b2") two_waiting
      (λ a b h. h) deferral_succeeds (omega arith)
