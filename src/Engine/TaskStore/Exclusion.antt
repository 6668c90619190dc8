-- ===== src/Engine/TaskStore/Exclusion.antt =====
-- A delivery is claimed once until it is recorded as failed
-- (crates/patchwright-engine/src/store.rs).
use patchwright.Prelude.{
  ℕ, ◌≤◌, ◌≡◌, refl, sym, subst, ap, ◌∙◌, Bool, true, false, not, ◌&&◌, Option, none, some, List,
  [], ◌∷◌, arith, All, count, leb, if_both, ◌==◌, nat_eq, list_eq, same_list_iff, same_refl,
  &&-eq-true,
}
use mathlib.Core.Bool.{or-true}
use patchwright.Prelude.Text.{Text, codes}
use patchwright.Prelude.Tables.{count-update_same, count-update_grows}
use patchwright.Domain.{Task}
use patchwright.Engine.TaskStore.{
  TaskTables, DeliveryRow, put_task, save_task, put_events, save_task_events, save_task_contract,
  save_approval, invalidate_task_approvals,
}
use patchwright.Engine.TaskStore.Deliveries.{
  has_key, is_state, finish, finished, claim_delivery_with_task_event, complete_delivery,
  mark_delivery_ambiguous, complete_delivery_with_task_events, complete_failed_merge_delivery,
}
use patchwright.Engine.TaskStore.Preparations.{
  claim_preparation, complete_preparation_claim, recover_interrupted_preparations,
}
use patchwright.Engine.TaskStore.Ledger.{is_held, holds, IsKeyed, Shows, claim_spec, claim-Shows}
use patchwright.Engine.TaskStore.Histories.{
  Outside, Operation, saves_task, saves_events, saves_contract, saves_approval, invalidates,
  claims_delivery, completes_delivery, marks_ambiguous, completes_with_events, fails_merge,
  claims_preparation, completes_preparation, restarts, perform, perform_all,
}

-- Whether an operation records a failed result for the key.
unfoldable pub records_failure : Outside → Text → Operation → Bool
records_failure out key (completes_delivery now k result) =
    k == key && is_state out.state_of (codes "failed") (some result)
records_failure out key (marks_ambiguous k result) =
    k == key && is_state out.state_of (codes "failed") (some result)
records_failure out key (completes_with_events now k result events) =
    k == key && is_state out.state_of (codes "failed") (some result)
records_failure out key (fails_merge now k result task summary) =
    k == key && is_state out.state_of (codes "failed") (some result)
records_failure out key _ = false

-- Keys stay unique, and a held key stays held.
record Keeps (state_of : Text → Option Text) (key : Text) (db after : TaskTables) : Type 0 where
  keyed : IsKeyed db → IsKeyed after
  held : IsKeyed db → holds state_of db key ≡ true → holds state_of after key ≡ true

same-Keeps :
    (state_of : Text → Option Text) (key : Text) (db after : TaskTables)
    → after.deliveries ≡ db.deliveries
    → Keeps state_of key db after
unfolding holds
same-Keeps state_of key db after e = record {
  keyed = λ keyed k. subst (λ rows. count (has_key k) rows ≤ 1) (sym e) (keyed k);
  held = λ keyed h. subst (λ rows. leb 1 (count (is_held state_of key) rows) ≡ true) (sym e) h;
}

then-Keeps :
    (state_of : Text → Option Text) (key : Text) (db mid after : TaskTables)
    → Keeps state_of key db mid
    → Keeps state_of key mid after
    → Keeps state_of key db after
then-Keeps state_of key db mid after a b = record {
  keyed = λ h. b.keyed (a.keyed h);
  held = λ k h. b.held (a.keyed k) (a.held k h);
}

deliveries-put_events :
    (events : List (Task × Text)) (db : TaskTables)
    → (put_events events db).deliveries ≡ db.deliveries
unfolding put_events put_task
deliveries-put_events [] db = refl
deliveries-put_events ((task, summary) ∷ events) db =
    deliveries-put_events events (put_task task summary db)

is_held-finished :
    (state_of : Text → Option Text) (key k result : Text) (at : Option ℕ) (x : DeliveryRow)
    → (k == key && is_state state_of (codes "failed") (some result)) ≡ false
    → has_key k x ≡ true
    → is_held state_of key x ≡ true
    → is_held state_of key (finished result at x) ≡ true
is_held-finished state_of key k result at x h same held =
    let mine = (&&-eq-true (x.key == key) _ held).0 in
    let one = subst (λ (y : Text). (y == key) ≡ true) ((same_list_iff x.key k).0 same) mine in
    rw mine (ground (arith, one))

-- Recording a result other than a failure of the key.
finish-Keeps :
    (state_of : Text → Option Text) (key k result : Text) (at : Option ℕ) (db : TaskTables)
    → (k == key && is_state state_of (codes "failed") (some result)) ≡ false
    → Keeps state_of key db (finish k result at db)
unfolding holds
finish-Keeps state_of key k result at db h = record {
  keyed = λ keyed j.
      subst (λ n. n ≤ 1)
        (sym (
          count-update_same (has_key j) (has_key k) (finished result at) (λ x e. refl)
            db.deliveries))
        (keyed j);
  held = λ keyed e.
      let grows =
        count-update_grows (is_held state_of key) (has_key k) (finished result at)
          (λ x. is_held-finished state_of key k result at x h) db.deliveries in
      ground (arith, grows);
}

claim-Keeps :
    (state_of : Text → Option Text) (now : ℕ) (key k : Text) (event : Option (Task × Text))
    (db : TaskTables)
    → Keeps state_of key db (claim_delivery_with_task_event state_of now k event db).0
claim-Keeps state_of now key k event db = record {
  keyed = λ keyed. (shown keyed).keyed;
  held = λ keyed e. (shown keyed).shown key ∙ rw e refl;
}
  where
    shown :
        IsKeyed db
        → Shows state_of
            (claim_delivery_with_task_event state_of now k event db).0
            (claim_spec k (holds state_of db)).0
    shown keyed =
        (claim-Shows state_of now k event db (holds state_of db)
          (record { keyed = keyed; shown = λ j. refl })).1

perform-Keeps :
    (out : Outside) (key : Text) (op : Operation) (db : TaskTables)
    → records_failure out key op ≡ false
    → Keeps out.state_of key db (perform out op db)
unfolding perform records_failure save_task put_task save_task_events save_task_contract
    save_approval invalidate_task_approvals complete_delivery mark_delivery_ambiguous
    complete_delivery_with_task_events complete_failed_merge_delivery claim_preparation
    complete_preparation_claim recover_interrupted_preparations
perform-Keeps out key (saves_task task summary) db h = same-Keeps out.state_of key db _ refl
perform-Keeps out key (saves_events events) db h =
    same-Keeps out.state_of key db _ (deliveries-put_events events db)
perform-Keeps out key (saves_contract contract) db h = same-Keeps out.state_of key db _ refl
perform-Keeps out key (saves_approval approval) db h = same-Keeps out.state_of key db _ refl
perform-Keeps out key (invalidates now task_id) db h = same-Keeps out.state_of key db _ refl
perform-Keeps out key (claims_delivery now k event) db h =
    claim-Keeps out.state_of now key k event db
perform-Keeps out key (completes_delivery now k result) db h =
    if_both (λ (p : TaskTables × _). Keeps out.state_of key db p.0)
      (count (has_key k) db.deliveries == 1) _ _
      (λ _. finish-Keeps out.state_of key k result (some now) db h)
      (λ _. finish-Keeps out.state_of key k result (some now) db h)
perform-Keeps out key (marks_ambiguous k result) db h =
    if_both (λ (p : TaskTables × _). Keeps out.state_of key db p.0)
      (count (has_key k) db.deliveries == 1) _ _
      (λ _. finish-Keeps out.state_of key k result none db h)
      (λ _. finish-Keeps out.state_of key k result none db h)
perform-Keeps out key (completes_with_events now k result events) db h =
    if_both (λ (p : TaskTables × _). Keeps out.state_of key db p.0)
      (count (has_key k) db.deliveries == 1) _ _
      (λ _.
        then-Keeps out.state_of key db (finish k result (some now) db) _
          (finish-Keeps out.state_of key k result (some now) db h)
          (same-Keeps out.state_of key _ _
            (deliveries-put_events events (finish k result (some now) db))))
      (λ _. same-Keeps out.state_of key db db refl)
perform-Keeps out key (fails_merge now k result task summary) db h =
    if_both (λ (p : TaskTables × _). Keeps out.state_of key db p.0)
      (count (has_key k) db.deliveries == 1) _ _
      (λ _.
        then-Keeps out.state_of key db (finish k result (some now) db) _
          (finish-Keeps out.state_of key k result (some now) db h)
          (same-Keeps out.state_of key _ _ refl))
      (λ _. same-Keeps out.state_of key db db refl)
perform-Keeps out key (claims_preparation approval_id task_id action_digest now) db h =
    same-Keeps out.state_of key db _ (ground arith)
perform-Keeps out key (completes_preparation now approval_id result) db h =
    same-Keeps out.state_of key db _ (ground arith)
perform-Keeps out key (restarts now) db h = same-Keeps out.state_of key db _ refl

perform_all-Keeps :
    (out : Outside) (key : Text) (ops : List Operation) (db : TaskTables)
    → All (λ op. records_failure out key op ≡ false) ops
    → Keeps out.state_of key db (perform_all out ops db)
unfolding perform_all
perform_all-Keeps out key [] db h = same-Keeps out.state_of key db db refl
perform_all-Keeps out key (op ∷ ops) db h =
    then-Keeps out.state_of key db (perform out op db) _ (perform-Keeps out key op db h.0)
      (perform_all-Keeps out key ops (perform out op db) h.1)

-- Once a delivery was claimed, no claim of its key succeeds again, whatever operations and restarts
-- come between, until one of them records a failed result for that key.
pub claim-claim :
    (out : Outside) (key : Text) (first second : ℕ) (event again : Option (Task × Text))
    (db : TaskTables) (ops : List Operation)
    → IsKeyed db
    → All (λ op. records_failure out key op ≡ false) ops
    → (claim_delivery_with_task_event out.state_of second key again
        (perform_all out ops (claim_delivery_with_task_event out.state_of first key event db).0)).1
      ≡ false
claim-claim out key first second event again db ops keyed h =
    let start : Shows out.state_of db (holds out.state_of db) = record {
      keyed = keyed;
      shown = λ j. refl;
    } in
    let one = (claim-Shows out.state_of first key event db (holds out.state_of db) start).1 in
    let after = (claim_delivery_with_task_event out.state_of first key event db).0 in
    let kept = perform_all-Keeps out key ops after h in
    let last = perform_all out ops after in
    let held : holds out.state_of after key ≡ true =
      one.shown key ∙ rw (same_refl key) (or-true (holds out.state_of db key)) in
    let end : Shows out.state_of last (holds out.state_of last) = record {
      keyed = kept.keyed one.keyed;
      shown = λ j. refl;
    } in
    (claim-Shows out.state_of second key again last (holds out.state_of last) end).0
    ∙ ap not (kept.held one.keyed held)
