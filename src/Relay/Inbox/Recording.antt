-- ===== src/Relay/Inbox/Recording.antt =====
-- What `RelayState::record` answers, and what it does to the deliveries that wait
-- (crates/patchwright-relay/src/webhook.rs).
use patchwright.Prelude.{
  ℕ, ◌<◌, ◌≡◌, ◌≢◌, refl, sym, ap, ◌∙◌, inl, inr, Bool, true, List, [], ◌∷◌, ◌++◌, any, count,
  retain, arith,
}
use patchwright.Prelude.Tables.{retain-append}
use patchwright.Relay.Inbox.{
  WebhookDelivery, InboxRow, RelayState, accepted, duplicate, is_pending, has_delivery_id,
  prune_forwarded_deliveries, next_rowid, new_row, record_pruned, record_delivery,
}
use patchwright.Relay.Inbox.Pruning.{pending, prune_forwarded_deliveries-pending}
use patchwright.Relay.Inbox.Steps.{IsBounded, pruned-waiting, record_pruned-cases}

any-retain :
    {A : Type 0} (p f : A → Bool) (xs : List A) → any (retain p xs) f ≡ true → any xs f ≡ true
any-retain p f [] h = h
any-retain p f (x ∷ xs) h = ground (arith, any-retain p f xs)

-- What `record_pruned` does to the deliveries that wait.
record_pruned-pending :
    (now : ℕ) (d : WebhookDelivery) (capacity : ℕ) (rows : List InboxRow)
    → ((record_pruned now d capacity rows).1 ≡ accepted
        → (count is_pending rows < capacity)
          × (pending (record_pruned now d capacity rows).0
              ≡ pending rows ++ new_row now (next_rowid rows) d ∷ []))
      × ((record_pruned now d capacity rows).1 ≢ accepted
          → pending (record_pruned now d capacity rows).0 ≡ pending rows)
record_pruned-pending now d capacity rows = elim (record_pruned-cases now d capacity rows) [
  | inl (added, room) ↦ (
    λ _. (room, rw added (retain-append is_pending rows (new_row now (next_rowid rows) d ∷ []))),
    λ refused. absurd (refused (ap (λ r. r.1) added)),
  )
  | inr (unchanged, refused) ↦ (λ took. absurd (refused took), λ _. rw unchanged refl)
]

record_pruned-known :
    (now : ℕ) (d : WebhookDelivery) (capacity : ℕ) (rows : List InboxRow)
    → any rows (has_delivery_id d.delivery_id) ≡ true
    → (record_pruned now d capacity rows).1 ≡ duplicate
unfolding record_pruned
record_pruned-known now d capacity rows known = rw known refl

-- In a bounded inbox, a delivery is accepted only if fewer deliveries wait than the queue may hold,
-- and then exactly it joins those that wait, at their end; if it is not accepted, the same
-- deliveries wait as before; and if a delivery of its identity waits, the answer is "duplicate".
pub record_delivery-pending :
    (now : ℕ) (d : WebhookDelivery) (state : RelayState)
    → IsBounded state
    → ((record_delivery now d state).1 ≡ accepted
        → (count is_pending state.inbox < state.queue_capacity)
          × ((rowid : ℕ) × (pending (record_delivery now d state).0.inbox
                ≡ pending state.inbox ++ new_row now rowid d ∷ [])))
      × ((record_delivery now d state).1 ≢ accepted
          → pending (record_delivery now d state).0.inbox ≡ pending state.inbox)
      × (any (pending state.inbox) (has_delivery_id d.delivery_id) ≡ true
          → (record_delivery now d state).1 ≡ duplicate)
unfolding record_delivery
record_delivery-pending now d state h =
    let rows = prune_forwarded_deliveries state.forwarded_retention_capacity now state.inbox in
    let same =
      prune_forwarded_deliveries-pending state.forwarded_retention_capacity now state.inbox
        h.rowids in
    let as_many = pruned-waiting state.forwarded_retention_capacity now state.inbox h.rowids in
    let effect = record_pruned-pending now d state.queue_capacity rows in
    (
      λ took.
          let (room, joined) = effect.0 took in
          (
            rw (sym as_many) room,
            (next_rowid rows, joined ∙ ap (λ p. p ++ new_row now (next_rowid rows) d ∷ []) same),
          ),
      λ refused. effect.1 refused ∙ same,
      λ known.
          record_pruned-known now d state.queue_capacity rows
            (any-retain is_pending (has_delivery_id d.delivery_id) rows (rw same known)),
    )
