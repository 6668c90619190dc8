-- ===== src/Relay/Inbox/Pruning.antt =====
-- What `prune_forwarded_deliveries` removes (crates/patchwright-relay/src/webhook.rs).
use patchwright.Prelude.{
  ℕ, ◌-◌, ◌≤◌, ◌≡◌, refl, ◌∙◌, inl, inr, Bool, true, false, not, ◌&&◌, List, All, Bool-cases, count,
  retain, take, ltb, ◌==◌, nat_eq, same_refl, arith,
}
use patchwright.Prelude.Sorting.{sort_by, All-sort_by, count-sort_by, length-sort_by}
use patchwright.Prelude.Tables.{
  All-map, All-always, All-take, All-any, length-take, count-take-le, count-of_All, count-split,
  count-retain, length-retain, any-of_All-false, retain-retain, count-le_of_implies,
}
use patchwright.Prelude.Tables.Keys.{HasUniqueKeys, HasUniqueKeys-retain, retain-excludes}
use patchwright.Relay.Inbox.{
  InboxRow, is_forwarded, is_pending, is_expired, is_older, is_among, oldest_forwarded,
  delete_excess, prune_forwarded_deliveries,
}

-- The rows that wait to be forwarded.
abbrev pub pending : List InboxRow → List InboxRow
pending rows = retain is_pending rows

abbrev pub HasUniqueRowids : List InboxRow → Type 0
HasUniqueRowids rows = HasUniqueKeys (λ row. row.rowid) rows

forwarded-of_pending : (b : Bool) → not b ≡ true → b ≡ false
forwarded-of_pending b h = ground arith

-- No pending row is among the oldest forwarded ones.
oldest_forwarded-spares :
    (excess : ℕ) (rows : List InboxRow)
    → HasUniqueRowids rows
    → All
        (λ row. is_pending row ≡ true → not (is_among (oldest_forwarded excess rows) row) ≡ true)
        rows
oldest_forwarded-spares excess rows h =
    All-map
      (λ row excludes waits.
        rw
          (any-of_All-false _ _ (
            All-take _ excess _
              (All-sort_by is_older _ _ (excludes (forwarded-of_pending _ waits)))))
          refl)
      rows (retain-excludes (λ row. row.rowid) is_forwarded rows h)

delete_excess-pending :
    (excess : ℕ) (rows : List InboxRow)
    → HasUniqueRowids rows
    → pending (delete_excess excess rows) ≡ pending rows
delete_excess-pending excess rows h = elim (Bool-cases (ltb 0 excess)) [
  | inl some_over ↦ rw some_over (retain-retain _ _ rows (oldest_forwarded-spares excess rows h))
  | inr none_over ↦ rw none_over refl
]

unexpired-of_pending : (b old : Bool) → not b ≡ true → not (b && old) ≡ true
unexpired-of_pending b old h = ground arith

-- Pruning leaves every delivery that waits to be forwarded, in its place.
pub prune_forwarded_deliveries-pending :
    (capacity now : ℕ) (rows : List InboxRow)
    → HasUniqueRowids rows
    → pending (prune_forwarded_deliveries capacity now rows) ≡ pending rows
unfolding prune_forwarded_deliveries
prune_forwarded_deliveries-pending capacity now rows h =
    delete_excess-pending _ _ (HasUniqueKeys-retain _ _ rows h)
    ∙ retain-retain is_pending (λ row. not (is_expired now row)) rows
        (All-always (λ row waits. unexpired-of_pending _ _ waits) rows)

-- The forwarded rows among the oldest are at least as many as the excess.
oldest_forwarded-count :
    (excess : ℕ) (rows : List InboxRow)
    → excess ≤ count is_forwarded rows
    → excess ≤ count (λ row. is_forwarded row && is_among (oldest_forwarded excess rows) row) rows
oldest_forwarded-count excess rows h =
    let candidates = retain is_forwarded rows in
    let sorted = sort_by is_older candidates in
    let named = take excess sorted in
    omega (
      arith,
      length-retain is_forwarded rows,
      length-sort_by is_older candidates,
      length-take excess sorted
          (omega (arith, length-retain is_forwarded rows, length-sort_by is_older candidates)),
      count-of_All (is_among named) named
          (All-any (λ a b. a.rowid == b.rowid) (λ a. same_refl a.rowid) named),
      count-take-le (is_among named) excess sorted,
      count-sort_by is_older (is_among named) candidates,
      count-retain (is_among named) is_forwarded rows,
      count-le_of_implies (λ row. is_among named row && is_forwarded row)
          (λ row. is_forwarded row && is_among named row) rows
          (All-always (λ row both. swapped (is_among named row) (is_forwarded row) both) rows),
    )
  where
    swapped : (a b : Bool) → (a && b) ≡ true → (b && a) ≡ true
    swapped a b h = ground arith

delete_excess-bound :
    (capacity : ℕ) (rows : List InboxRow)
    → count is_forwarded (delete_excess (count is_forwarded rows - capacity) rows) ≤ capacity
delete_excess-bound capacity rows =
    let excess = count is_forwarded rows - capacity in
    let named = oldest_forwarded excess rows in
    elim (Bool-cases (ltb 0 excess)) [
      | inl some_over ↦ rw some_over (
          omega (
            arith,
            count-retain is_forwarded (λ row. not (is_among named row)) rows,
            count-split is_forwarded (is_among named) rows,
            oldest_forwarded-count excess rows (omega arith),
          ))
      | inr none_over ↦ rw none_over (ground (arith, none_over))
    ]

-- Pruning leaves at most as many forwarded deliveries as the capacity.
pub prune_forwarded_deliveries-bound :
    (capacity now : ℕ) (rows : List InboxRow)
    → count is_forwarded (prune_forwarded_deliveries capacity now rows) ≤ capacity
unfolding prune_forwarded_deliveries
prune_forwarded_deliveries-bound capacity now rows =
    delete_excess-bound capacity (retain (λ row. not (is_expired now row)) rows)

delete_excess-HasUniqueRowids :
    (excess : ℕ) (rows : List InboxRow)
    → HasUniqueRowids rows
    → HasUniqueRowids (delete_excess excess rows)
delete_excess-HasUniqueRowids excess rows h = elim (Bool-cases (ltb 0 excess)) [
  | inl some_over ↦ rw some_over (HasUniqueKeys-retain _ _ rows h)
  | inr none_over ↦ rw none_over h
]

pub prune_forwarded_deliveries-HasUniqueRowids :
    (capacity now : ℕ) (rows : List InboxRow)
    → HasUniqueRowids rows
    → HasUniqueRowids (prune_forwarded_deliveries capacity now rows)
unfolding prune_forwarded_deliveries
prune_forwarded_deliveries-HasUniqueRowids capacity now rows h =
    delete_excess-HasUniqueRowids _ _ (HasUniqueKeys-retain _ _ rows h)
