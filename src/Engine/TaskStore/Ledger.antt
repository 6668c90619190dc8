-- ===== src/Engine/TaskStore/Ledger.antt =====
-- What the table of deliveries promises (crates/patchwright-engine/src/store.rs): a ledger of the
-- keys that are held.
use patchwright.Prelude.{
  ℕ, ◌≤◌, ◌≡◌, ◌+◌, refl, sym, subst, ap, ◌∙◌, inl, inr, Bool, true, false, not, ◌&&◌, ◌||◌, Option,
  none, some, List, [], ◌∷◌, ◌++◌, arith, any, count, count-append, leb, if◌then◌else◌, ◌==◌,
  nat_eq, list_eq, same_list_iff, same_refl, &&-eq-true, Bool-cases,
}
use patchwright.Prelude.Text.{Text}
use patchwright.Prelude.Tables.{
  update_where, count-update_in, count-update_same, any-count, count-by,
}
use patchwright.Domain.{Task}
use patchwright.Engine.TaskStore.{TaskTables, DeliveryRow, put_task}
use patchwright.Engine.TaskStore.Deliveries.{
  has_key, is_state, is_failed, is_retry, reclaimed, event_task, put_event, new_delivery,
  claim_delivery_with_task_event,
}

-- A key is held from its claim until a result with the state `failed` is recorded for it.
abbrev pub is_held : (Text → Option Text) → Text → DeliveryRow → Bool
is_held state_of key row = row.key == key && not (is_failed state_of row)

unfoldable pub holds : (Text → Option Text) → TaskTables → Text → Bool
holds state_of db key = leb 1 (count (is_held state_of key) db.deliveries)

-- The primary key of the table.
abbrev pub IsKeyed : TaskTables → Type 0
IsKeyed db = (key : Text) → count (has_key key) db.deliveries ≤ 1

deliveries-put_event :
    (event : Option (Task × Text)) (db : TaskTables)
    → (put_event event db).deliveries ≡ db.deliveries
unfolding put_event put_task
deliveries-put_event none db = refl
deliveries-put_event (some (task, summary)) db = refl

key_differs : (a k key : Text) → (k == key) ≡ false → (a == key) ≡ true → (a == k) ≡ false
key_differs a k key apart h = elim (Bool-cases (a == k)) [
  | inl e ↦
      let same = subst (λ (x : Text). (x == key) ≡ true) ((same_list_iff a k).0 e) h in
      cc (same, apart)
  | inr e ↦ e
]

module _ (state_of : Text → Option Text) (now : ℕ) (task : Option ℕ) (key : Text) where
  pub has_key-reopen :
      (k : Text) (rows : List DeliveryRow)
      → count (has_key k) (update_where (is_retry state_of key) (reclaimed now task) rows)
        ≡ count (has_key k) rows
  has_key-reopen k rows =
      count-update_same (has_key k) (is_retry state_of key) (reclaimed now task) (λ x h. refl) rows

  pub is_held-reopen :
      (rows : List DeliveryRow)
      → count
          (is_held state_of key)
          (update_where (is_retry state_of key) (reclaimed now task) rows)
        ≡ count (is_held state_of key) rows + count (is_retry state_of key) rows
  unfolding is_state
  is_held-reopen rows =
      count-update_in (is_held state_of key) (is_retry state_of key) (reclaimed now task)
        (λ x h. ground arith) (λ x h. ground arith) rows

  pub is_held-reopen_other :
      (k : Text) (rows : List DeliveryRow)
      → (k == key) ≡ false
      → count (is_held state_of k) (update_where (is_retry state_of key) (reclaimed now task) rows)
        ≡ count (is_held state_of k) rows
  is_held-reopen_other k rows apart =
      count-update_same (is_held state_of k) (is_retry state_of key) (reclaimed now task)
        (λ x h.
          let other = key_differs x.key k key apart (&&-eq-true (x.key == key) _ h).0 in
          rw other refl)
        rows

-- The promise: a claim succeeds when the key is not held, and holds it.
abbrev pub claim_spec : Text → (Text → Bool) → (Text → Bool) × Bool
claim_spec key held = (λ k. held k || k == key, not (held key))

-- A claim on the rows, the task events aside.
claim_rows :
    (state_of : Text → Option Text) (now : ℕ) (key : Text) (event : Option (Task × Text))
    (db : TaskTables)
    → List DeliveryRow
claim_rows state_of now key event db =
    if count (is_retry state_of key) db.deliveries == 1
    then update_where (is_retry state_of key) (reclaimed now (event_task event)) db.deliveries
    else if any db.deliveries (has_key key)
    then db.deliveries
    else db.deliveries ++ new_delivery key now (event_task event) ∷ []

claim-rows :
    (state_of : Text → Option Text) (now : ℕ) (key : Text) (event : Option (Task × Text))
    (db : TaskTables)
    → (claim_delivery_with_task_event state_of now key event db).0.deliveries
      ≡ claim_rows state_of now key event db
unfolding claim_delivery_with_task_event claim_rows
claim-rows state_of now key event db = ground (
  arith,
  deliveries-put_event event (record db {
    deliveries =
        update_where (is_retry state_of key) (reclaimed now (event_task event)) db.deliveries;
  }),
  deliveries-put_event event
      (record db { deliveries = db.deliveries ++ new_delivery key now (event_task event) ∷ [] }),
)

claim-reply :
    (state_of : Text → Option Text) (now : ℕ) (key : Text) (event : Option (Task × Text))
    (db : TaskTables)
    → IsKeyed db
    → (claim_delivery_with_task_event state_of now key event db).1 ≡ not (holds state_of db key)
unfolding claim_delivery_with_task_event holds
claim-reply state_of now key event db keyed = ground (
  arith,
  keyed key,
  any-count (has_key key) db.deliveries,
  count-by (has_key key) (is_failed state_of) db.deliveries,
)

new-held :
    (state_of : Text → Option Text) (key : Text) (now : ℕ) (task : Option ℕ)
    → is_held state_of key (new_delivery key now task) ≡ true
unfolding is_state
new-held state_of key now task = rw (same_refl key) refl

claimed-held :
    (state_of : Text → Option Text) (now : ℕ) (key : Text) (event : Option (Task × Text))
    (db : TaskTables)
    → IsKeyed db
    → 1 ≤ count (is_held state_of key) (claim_rows state_of now key event db)
unfolding claim_rows
claimed-held state_of now key event db keyed = ground (
  arith,
  keyed key,
  any-count (has_key key) db.deliveries,
  count-by (has_key key) (is_failed state_of) db.deliveries,
  is_held-reopen state_of now (event_task event) key db.deliveries,
  count-append (is_held state_of key) db.deliveries (new_delivery key now (event_task event) ∷ []),
  new-held state_of key now (event_task event),
)

other-held :
    (state_of : Text → Option Text) (now : ℕ) (key k : Text) (event : Option (Task × Text))
    (db : TaskTables)
    → (k == key) ≡ false
    → count (is_held state_of k) (claim_rows state_of now key event db)
      ≡ count (is_held state_of k) db.deliveries
unfolding claim_rows
other-held state_of now key k event db apart = ground (
  arith,
  is_held-reopen_other state_of now (event_task event) key k db.deliveries apart,
  count-append (is_held state_of k) db.deliveries (new_delivery key now (event_task event) ∷ []),
  key_differs key k key apart (same_refl key),
)

claimed-keyed :
    (state_of : Text → Option Text) (now : ℕ) (key k : Text) (event : Option (Task × Text))
    (db : TaskTables)
    → IsKeyed db
    → count (has_key k) (claim_rows state_of now key event db) ≤ 1
unfolding claim_rows
claimed-keyed state_of now key k event db keyed = elim (Bool-cases (k == key)) [
  | inl same ↦ rw ((same_list_iff k key).0 same) (
      ground (
        arith,
        keyed key,
        any-count (has_key key) db.deliveries,
        has_key-reopen state_of now (event_task event) key key db.deliveries,
        count-append (has_key key) db.deliveries (new_delivery key now (event_task event) ∷ []),
        same_refl key,
      ))
  | inr apart ↦ ground (
    arith,
    keyed k,
    has_key-reopen state_of now (event_task event) key k db.deliveries,
    count-append (has_key k) db.deliveries (new_delivery key now (event_task event) ∷ []),
    key_differs key k key apart (same_refl key),
  )
]

-- What it is for tables to keep a ledger.
pub record Shows (state_of : Text → Option Text) (db : TaskTables) (held : Text → Bool)
    : Type 0 where
  pub keyed : IsKeyed db
  pub shown : (key : Text) → holds state_of db key ≡ held key

claim-shown :
    (state_of : Text → Option Text) (now : ℕ) (key k : Text) (event : Option (Task × Text))
    (db : TaskTables)
    → IsKeyed db
    → holds state_of (claim_delivery_with_task_event state_of now key event db).0 k
      ≡ (holds state_of db k || k == key)
unfolding holds
claim-shown state_of now key k event db keyed =
    rw (claim-rows state_of now key event db) (elim (Bool-cases (k == key)) [
      | inl same ↦
          rw ((same_list_iff k key).0 same)
            (ground (arith, claimed-held state_of now key event db keyed, same_refl key))
      | inr apart ↦ ground (arith, other-held state_of now key k event db apart, apart)
    ])

-- The table of deliveries refines the ledger: where it shows a ledger, a claim answers as the
-- ledger does and leaves a table that shows the ledger that the claim leaves.
pub claim-Shows :
    (state_of : Text → Option Text) (now : ℕ) (key : Text) (event : Option (Task × Text))
    (db : TaskTables) (held : Text → Bool)
    → Shows state_of db held
    → ((claim_delivery_with_task_event state_of now key event db).1 ≡ (claim_spec key held).1)
      × Shows state_of
          (claim_delivery_with_task_event state_of now key event db).0
          (claim_spec key held).0
claim-Shows state_of now key event db held shows = (
  claim-reply state_of now key event db shows.keyed ∙ ap not (shows.shown key),
  record {
    keyed = λ k.
        subst (λ rows. count (has_key k) rows ≤ 1) (sym (claim-rows state_of now key event db))
          (claimed-keyed state_of now key k event db shows.keyed);
    shown = λ k.
        claim-shown state_of now key k event db shows.keyed
        ∙ ap (λ b. b || k == key) (shows.shown k);
  },
)
