-- ===== src/Relay/Inbox/Histories.antt =====
-- What every history of the inbox keeps (crates/patchwright-relay/src/webhook.rs).
use patchwright.Prelude.{
  ℕ, ◌≤◌, ◌≡◌, ◌+◌, ◌∷◌, length, refl, inl, inr, [], List, find, count, arith, ◌∙◌, Bool-cases,
  ◌==◌, nat_eq, Option, none, some, leb,
}
use patchwright.Prelude.Text.{Text}
use patchwright.Relay.Inbox.{
  WebhookDelivery, RelayState, is_forwarded, is_pending, default_queue_capacity, InboxRow,
  is_pending_delivery, defer_found, max_u32, default_forwarded_retention_capacity, record_delivery,
  mark_forwarded, defer_delivery, open_inbox, new, delivery_count, pending_delivery_count,
}
use patchwright.Relay.Inbox.Pruning.{
  HasUniqueRowids, prune_forwarded_deliveries-bound, prune_forwarded_deliveries-HasUniqueRowids,
}
use patchwright.Relay.Inbox.Steps.{
  IsBounded, pruned-waiting, record_delivery-IsBounded, mark_forwarded-cases, defer_delivery-cases,
}

-- One operation on an open inbox, with any arguments, or a restart of the relay.
pub data Step : RelayState → RelayState → Type 0 where
  recorded :
      (now : ℕ) (d : WebhookDelivery) (state : RelayState)
      → Step state (record_delivery now d state).0
  marked : (now : ℕ) (id : Text) (state : RelayState) → Step state (mark_forwarded now id state).0
  put_off : (now : ℕ) (id : Text) (state : RelayState) → Step state (defer_delivery now id state).0
  reopened : (now : ℕ) (state : RelayState) → Step state (open_inbox now state.inbox)

pub data Reach : RelayState → RelayState → Type 0 where
  here : {state : RelayState} → Reach state state
  then : {state mid after : RelayState} → Reach state mid → Step mid after → Reach state after

-- A bounded inbox with the capacities of a relay that was opened.
pub record IsOpen (state : RelayState) : Type 0 where
  pub is_bounded : IsBounded state
  pub queue : state.queue_capacity ≡ default_queue_capacity
  pub retention : state.forwarded_retention_capacity ≡ default_forwarded_retention_capacity

-- The two capacities are as they were.
abbrev KeepsCapacities : RelayState → RelayState → Type 0
KeepsCapacities state after =
    (after.queue_capacity ≡ state.queue_capacity)
    × (after.forwarded_retention_capacity ≡ state.forwarded_retention_capacity)

IsOpen-kept :
    (state after : RelayState)
    → IsOpen state
    → KeepsCapacities state after
    → IsBounded after
    → IsOpen after
IsOpen-kept state after h keeps b = record {
  is_bounded = b;
  queue = keeps.0 ∙ h.queue;
  retention = keeps.1 ∙ h.retention;
}

mark_forwarded-KeepsCapacities :
    (now : ℕ) (id : Text) (state : RelayState)
    → KeepsCapacities state (mark_forwarded now id state).0
unfolding mark_forwarded
mark_forwarded-KeepsCapacities now id state =
    elim (Bool-cases (count (is_pending_delivery id) state.inbox == 1)) [
      | inl found ↦ rw found (refl, refl)
      | inr missing ↦ rw missing (refl, refl)
    ]

mark_forwarded-IsOpen :
    (now : ℕ) (id : Text) (state : RelayState)
    → IsOpen state
    → IsOpen (mark_forwarded now id state).0
mark_forwarded-IsOpen now id state h =
    let keeps = mark_forwarded-KeepsCapacities now id state in
    elim (mark_forwarded-cases now id state h.is_bounded) [
      | inl (_, after, _) ↦ IsOpen-kept state (mark_forwarded now id state).0 h keeps after
      | inr unchanged ↦ rw unchanged h
    ]

defer_found-KeepsCapacities :
    (now : ℕ) (id : Text) (found : Option InboxRow) (state : RelayState)
    → KeepsCapacities state (defer_found now id found state).0
unfolding defer_found
defer_found-KeepsCapacities now id none state = (refl, refl)
defer_found-KeepsCapacities now id (some row) state =
    elim (Bool-cases (leb row.attempt_count max_u32)) [
      | inl fits ↦ rw fits (refl, refl)
      | inr over ↦ rw over (refl, refl)
    ]

defer_delivery-KeepsCapacities :
    (now : ℕ) (id : Text) (state : RelayState)
    → KeepsCapacities state (defer_delivery now id state).0
unfolding defer_delivery
defer_delivery-KeepsCapacities now id state =
    defer_found-KeepsCapacities now id (find (is_pending_delivery id) state.inbox) state

defer_delivery-IsOpen :
    (now : ℕ) (id : Text) (state : RelayState)
    → IsOpen state
    → IsOpen (defer_delivery now id state).0
defer_delivery-IsOpen now id state h =
    let keeps = defer_delivery-KeepsCapacities now id state in
    elim (defer_delivery-cases now id state h.is_bounded) [
      | inl (_, after, _) ↦ IsOpen-kept state (defer_delivery now id state).0 h keeps after
      | inr (e, unchanged) ↦ rw unchanged h
    ]

record_delivery-IsOpen :
    (now : ℕ) (d : WebhookDelivery) (state : RelayState)
    → IsOpen state
    → IsOpen (record_delivery now d state).0
unfolding record_delivery
record_delivery-IsOpen now d state h =
    IsOpen-kept state (record_delivery now d state).0 h (refl, refl)
      (record_delivery-IsBounded now d state h.is_bounded)

open_inbox-IsOpen :
    (now : ℕ) (rows : List InboxRow)
    → HasUniqueRowids rows
    → count is_pending rows ≤ default_queue_capacity
    → IsOpen (open_inbox now rows)
unfolding open_inbox
open_inbox-IsOpen now rows unique waiting = record {
  is_bounded = record {
    rowids =
        prune_forwarded_deliveries-HasUniqueRowids default_forwarded_retention_capacity now rows
          unique;
    waiting = rw (pruned-waiting default_forwarded_retention_capacity now rows unique) waiting;
    kept = prune_forwarded_deliveries-bound default_forwarded_retention_capacity now rows;
  };
  queue = refl;
  retention = refl;
}

Step-IsOpen : {state after : RelayState} → Step state after → IsOpen state → IsOpen after
Step-IsOpen (recorded now d state) h = record_delivery-IsOpen now d state h
Step-IsOpen (marked now id state) h = mark_forwarded-IsOpen now id state h
Step-IsOpen (put_off now id state) h = defer_delivery-IsOpen now id state h
Step-IsOpen (reopened now state) h =
    open_inbox-IsOpen now state.inbox h.is_bounded.rowids (rw (← h.queue) h.is_bounded.waiting)

Reach-IsOpen : {first after : RelayState} → Reach first after → IsOpen first → IsOpen after
Reach-IsOpen here h = h
Reach-IsOpen (then history step) h = Step-IsOpen step (Reach-IsOpen history h)

count-parts : (rows : List InboxRow) → count is_pending rows + count is_forwarded rows ≡ length rows
count-parts [] = omega arith
count-parts (row ∷ rows) = ground (arith, count-parts rows)

new-IsOpen : IsOpen new
unfolding new
new-IsOpen = record {
  is_bounded = record { rowids = tt; waiting = omega arith; kept = omega arith };
  queue = refl;
  retention = refl;
}

-- Whatever is done with a new inbox, restarts included, no two rows share a row number, at most
-- ten thousand deliveries wait, and the table holds at most twenty thousand.
pub new-Reach :
    {state : RelayState}
    → Reach new state
    → HasUniqueRowids state.inbox
      × (pending_delivery_count state ≤ 10000)
      × (delivery_count state ≤ 20000)
unfolding delivery_count pending_delivery_count
new-Reach {state} history =
    let h = Reach-IsOpen history new-IsOpen in
    (
      h.is_bounded.rowids,
      omega (arith, h.is_bounded.waiting, h.queue),
      omega (
        arith,
        h.is_bounded.waiting,
        h.queue,
        h.is_bounded.kept,
        h.retention,
        count-parts state.inbox,
      ),
    )
