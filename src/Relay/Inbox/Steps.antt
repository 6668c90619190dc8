-- ===== src/Relay/Inbox/Steps.antt =====
-- What each operation on the inbox does to the deliveries that wait, and what any sequence of them
-- keeps (crates/patchwright-relay/src/webhook.rs).
use patchwright.Prelude.{
  ◌≢◌, &&-eq-true, ℕ, ◌+◌, ◌≤◌, ◌<◌, ◌≡◌, refl, sym, ap, ◌∙◌, ◌⊎◌, inl, inr, Option, none, some,
  List, [], ◌∷◌, ◌++◌, All, Bool-cases, any, count, find, length, leb, leb→le, ◌==◌, nat_eq,
  list_eq, arith, ok, err, count-append, nat_beq_iff,
}
use patchwright.Prelude.Text.{Text}
use patchwright.Prelude.Tables.{
  update_where, All-map, length-retain, count-of_All-false, count-update_out, count-update_kept,
}
use patchwright.Prelude.Tables.Keys.{HasUniqueKeys-append, HasUniqueKeys-update_where}
use patchwright.Relay.Inbox.{
  WebhookDelivery, InboxRow, RelayState, accepted, InboxError, disappeared, is_forwarded,
  is_pending, is_pending_delivery, has_delivery_id, prune_forwarded_deliveries, next_rowid, new_row,
  record_pruned, record_delivery, mark_forwarded, deferred, defer_found, defer_delivery, max_u32,
  out_of_range,
}
use patchwright.Relay.Inbox.Pruning.{
  HasUniqueRowids, prune_forwarded_deliveries-pending, prune_forwarded_deliveries-bound,
  prune_forwarded_deliveries-HasUniqueRowids,
}

-- The inbox within its bounds.
pub record IsBounded (state : RelayState) : Type 0 where
  pub rowids : HasUniqueRowids state.inbox
  pub waiting : count is_pending state.inbox ≤ state.queue_capacity
  pub kept : count is_forwarded state.inbox ≤ state.forwarded_retention_capacity

next_rowid-grows :
    (row : InboxRow) (rows : List InboxRow)
    → (row.rowid < next_rowid (row ∷ rows)) × (next_rowid rows ≤ next_rowid (row ∷ rows))
unfolding next_rowid
next_rowid-grows row rows = elim (Bool-cases (leb (next_rowid rows) row.rowid)) [
  | inl over ↦ rw over (omega arith, omega (arith, leb→le _ _ over))
  | inr under ↦ rw under (ground (arith, under), omega arith)
]

next_rowid-above : (rows : List InboxRow) → All (λ row. row.rowid < next_rowid rows) rows
next_rowid-above [] = tt
next_rowid-above (row ∷ rows) =
    let grows = next_rowid-grows row rows in
    (grows.0, All-map (λ r h. omega (arith, grows.1)) rows (next_rowid-above rows))

next_rowid-fresh : (rows : List InboxRow) → count (λ row. row.rowid == next_rowid rows) rows ≡ 0
next_rowid-fresh rows =
    count-of_All-false _ rows (All-map (λ row h. ground arith) rows (next_rowid-above rows))

-- What `record_pruned` does, over its two tests.
pub record_pruned-cases :
    (now : ℕ) (d : WebhookDelivery) (capacity : ℕ) (rows : List InboxRow)
    → (record_pruned now d capacity rows ≡ (rows ++ new_row now (next_rowid rows) d ∷ [], accepted))
        × (count is_pending rows < capacity)
      ⊎ ((record_pruned now d capacity rows).0 ≡ rows)
        × ((record_pruned now d capacity rows).1 ≢ accepted)
unfolding record_pruned
record_pruned-cases now d capacity rows =
    elim (Bool-cases (any rows (has_delivery_id d.delivery_id))) [
      | inl known ↦ inr (rw known (refl, λ e. cc))
      | inr fresh ↦ elim (Bool-cases (leb capacity (count is_pending rows))) [
        | inl no_room ↦ inr (rw (fresh, no_room) (refl, λ e. cc))
        | inr room ↦ inl (rw (fresh, room) (refl, ground (arith, room)))
      ]
    ]

bounded :
    (state : RelayState) (rows : List InboxRow)
    → HasUniqueRowids rows
    → count is_pending rows ≤ state.queue_capacity
    → count is_forwarded rows ≤ state.forwarded_retention_capacity
    → IsBounded (record state { inbox = rows })
bounded state rows u w k = record { rowids = u; waiting = w; kept = k }

-- Pruning leaves as many waiting deliveries as there were.
pub pruned-waiting :
    (capacity now : ℕ) (rows : List InboxRow)
    → HasUniqueRowids rows
    → count is_pending (prune_forwarded_deliveries capacity now rows) ≡ count is_pending rows
pruned-waiting capacity now rows h =
    sym (length-retain is_pending (prune_forwarded_deliveries capacity now rows))
    ∙ ap length (prune_forwarded_deliveries-pending capacity now rows h)
    ∙ length-retain is_pending rows

record_pruned-IsBounded :
    (now : ℕ) (d : WebhookDelivery) (state : RelayState) (rows : List InboxRow)
    → HasUniqueRowids rows
    → count is_pending rows ≤ state.queue_capacity
    → count is_forwarded rows ≤ state.forwarded_retention_capacity
    → IsBounded (record state { inbox = (record_pruned now d state.queue_capacity rows).0 })
record_pruned-IsBounded now d state rows u w k =
    elim (record_pruned-cases now d state.queue_capacity rows) [
      | inl (added, room) ↦
          let added_rows = ap (λ r. r.0) added in
          let new = new_row now (next_rowid rows) d in
          rw added_rows (
            bounded state (rows ++ new ∷ [])
              (HasUniqueKeys-append (λ row. row.rowid) rows new u (next_rowid-fresh rows))
              (omega (arith, count-append is_pending rows (new ∷ [])))
              (omega (arith, count-append is_forwarded rows (new ∷ []))))
      | inr (unchanged, refused) ↦ rw unchanged (bounded state rows u w k)
    ]

pub record_delivery-IsBounded :
    (now : ℕ) (d : WebhookDelivery) (state : RelayState)
    → IsBounded state
    → IsBounded (record_delivery now d state).0
unfolding record_delivery
record_delivery-IsBounded now d state h =
    let capacity = state.forwarded_retention_capacity in
    record_pruned-IsBounded now d state (prune_forwarded_deliveries capacity now state.inbox)
      (prune_forwarded_deliveries-HasUniqueRowids capacity now state.inbox h.rowids)
      (rw (pruned-waiting capacity now state.inbox h.rowids) h.waiting)
      (prune_forwarded_deliveries-bound capacity now state.inbox)

-- The row that `mark_forwarded` writes.
abbrev pub acknowledged : ℕ → InboxRow → InboxRow
acknowledged now row = record row { forwarded_at = some now; last_error = none }

acknowledged-count :
    (now : ℕ) (id : Text) (rows : List InboxRow)
    → count is_pending (update_where (is_pending_delivery id) (acknowledged now) rows)
        + count (is_pending_delivery id) rows
      ≡ count is_pending rows
acknowledged-count now id rows =
    count-update_out is_pending (is_pending_delivery id) (acknowledged now)
      (λ row test. (&&-eq-true _ _ test).1) (λ row test. refl) rows

-- The two outcomes of `mark_forwarded`: one delivery less waits, or nothing is changed.
pub mark_forwarded-cases :
    (now : ℕ) (id : Text) (state : RelayState)
    → IsBounded state
    → ((mark_forwarded now id state).1 ≡ ok tt)
        × IsBounded (mark_forwarded now id state).0
        × (count is_pending (mark_forwarded now id state).0.inbox + 1
            ≡ count is_pending state.inbox)
      ⊎ (mark_forwarded now id state ≡ (state, err disappeared))
unfolding mark_forwarded
mark_forwarded-cases now id state h =
    let capacity = state.forwarded_retention_capacity in
    let marked = update_where (is_pending_delivery id) (acknowledged now) state.inbox in
    let unique =
      HasUniqueKeys-update_where (λ row. row.rowid) (is_pending_delivery id) (acknowledged now)
        (λ row test. refl) state.inbox h.rowids in
    let waiting = pruned-waiting capacity now marked unique in
    let fewer = acknowledged-count now id state.inbox in
    elim (Bool-cases (count (is_pending_delivery id) state.inbox == 1)) [
      | inl found ↦
          let one = (nat_beq_iff (count (is_pending_delivery id) state.inbox) 1).0 found in
          rw found (
            inl (
              refl,
              bounded state (prune_forwarded_deliveries capacity now marked)
                  (prune_forwarded_deliveries-HasUniqueRowids capacity now marked unique)
                  (omega (arith, waiting, fewer, one, h.waiting))
                  (prune_forwarded_deliveries-bound capacity now marked),
              omega (arith, waiting, fewer, one),
            ))
      | inr missing ↦ rw missing (inr refl)
    ]

-- The outcomes of `defer_delivery`: the same deliveries wait, or nothing is changed.
defer_found-cases :
    (now : ℕ) (id : Text) (found : Option InboxRow) (state : RelayState)
    → IsBounded state
    → ((defer_found now id found state).1 ≡ ok tt)
        × IsBounded (defer_found now id found state).0
        × (count is_pending (defer_found now id found state).0.inbox ≡ count is_pending state.inbox)
      ⊎ ((e : InboxError) × (defer_found now id found state ≡ (state, err e)))
unfolding defer_found
defer_found-cases now id none state h = inr (disappeared, refl)
defer_found-cases now id (some row) state h =
    let change = deferred now row.attempt_count in
    let after = update_where (is_pending_delivery id) change state.inbox in
    let waiting =
      count-update_kept is_pending (is_pending_delivery id) change (λ r. refl) state.inbox in
    let kept =
      count-update_kept is_forwarded (is_pending_delivery id) change (λ r. refl) state.inbox in
    elim (Bool-cases (leb row.attempt_count max_u32)) [
      | inl fits ↦ rw fits (
          inl (
            refl,
            bounded state after
                (HasUniqueKeys-update_where (λ r. r.rowid) (is_pending_delivery id) change
                  (λ r test. refl) state.inbox h.rowids)
                (rw waiting h.waiting) (rw kept h.kept),
            waiting,
          ))
      | inr over ↦ rw over (inr (out_of_range, refl))
    ]

pub defer_delivery-cases :
    (now : ℕ) (id : Text) (state : RelayState)
    → IsBounded state
    → ((defer_delivery now id state).1 ≡ ok tt)
        × IsBounded (defer_delivery now id state).0
        × (count is_pending (defer_delivery now id state).0.inbox ≡ count is_pending state.inbox)
      ⊎ ((e : InboxError) × (defer_delivery now id state ≡ (state, err e)))
unfolding defer_delivery
defer_delivery-cases now id state h =
    defer_found-cases now id (find (is_pending_delivery id) state.inbox) state h
