-- ===== src/Engine/TaskStore/Claims.antt =====
-- A preparation is claimed once (crates/patchwright-engine/src/store.rs).
use patchwright.Prelude.{
  ℕ, ◌≤◌, ◌≡◌, refl, sym, subst, inl, inr, Bool, false, not, ◌&&◌, Option, none, some, List, [],
  ◌∷◌, ◌++◌, nat_beq_iff, arith, any, count, count-append, if_both, ◌==◌, nat_eq, Bool-cases,
}
use patchwright.Prelude.Text.{Text, codes}
use patchwright.Prelude.Tables.{update_where, count-update_same, count-update_shrinks, any-count}
use patchwright.Domain.{Task}
use patchwright.Engine.TaskStore.{
  TaskTables, PreparationClaim, put_task, save_task, put_events, save_task_events,
  save_task_contract, save_approval, invalidate_task_approvals,
}
use patchwright.Engine.TaskStore.Deliveries.{
  put_event, event_task, reclaimed, is_retry, new_delivery, finish, claim_delivery_with_task_event,
  complete_delivery, mark_delivery_ambiguous, complete_delivery_with_task_events,
  complete_failed_merge_delivery,
}
use patchwright.Engine.TaskStore.Preparations.{
  PreparationClaimOutcome, claimed, already_claimed, claim_preparation, is_claim_of, is_active,
  is_active_for, new_claim, completed_with, is_result, is_active_claim_of, is_available,
  complete_preparation_claim, recover_interrupted_preparations,
}
use patchwright.Engine.TaskStore.Histories.{
  Outside, Operation, saves_task, saves_events, saves_contract, saves_approval, invalidates,
  claims_delivery, completes_delivery, marks_ambiguous, completes_with_events, fails_merge,
  claims_preparation, completes_preparation, restarts, perform, perform_all,
}

-- How often an approval was claimed, and how many claims of a task are active.
abbrev pub claims_of : ℕ → TaskTables → ℕ
claims_of approval_id db = count (is_claim_of approval_id) db.preparation_claims

abbrev pub active_claims : ℕ → TaskTables → ℕ
active_claims task_id db = count (is_active_for task_id) db.preparation_claims

-- Every approval is claimed at most once, and every task has at most one active claim.
pub record IsExclusive (db : TaskTables) : Type 0 where
  pub once : (approval_id : ℕ) → claims_of approval_id db ≤ 1
  pub alone : (task_id : ℕ) → active_claims task_id db ≤ 1

-- A step keeps the claims that there are, and the exclusion.
record Extends (db after : TaskTables) : Type 0 where
  more : (approval_id : ℕ) → claims_of approval_id db ≤ claims_of approval_id after
  exclusive : IsExclusive db → IsExclusive after

same-Extends :
    (db after : TaskTables) → after.preparation_claims ≡ db.preparation_claims → Extends db after
same-Extends db after e = record {
  more = λ id.
      subst (λ rows. count (is_claim_of id) db.preparation_claims ≤ count (is_claim_of id) rows)
        (sym e) (omega arith);
  exclusive = λ h. record {
    once = λ id. subst (λ rows. count (is_claim_of id) rows ≤ 1) (sym e) (h.once id);
    alone = λ id. subst (λ rows. count (is_active_for id) rows ≤ 1) (sym e) (h.alone id);
  };
}

-- Closing active claims, whichever the test picks.
close-Extends :
    (test : PreparationClaim → Bool) (now : ℕ) (result : Text) (db : TaskTables)
    → Extends db (record db {
      preparation_claims = update_where test (completed_with now result) db.preparation_claims;
    })
close-Extends test now result db = record {
  more = λ id. omega (arith, same id);
  exclusive = λ h. record {
    once = λ id. omega (arith, same id, h.once id);
    alone = λ id.
        let shrinks =
          count-update_shrinks (is_active_for id) test (completed_with now result)
            (λ x e k. ground arith) db.preparation_claims in
        omega (arith, shrinks, h.alone id);
  };
}
  where
    same :
        (id : ℕ)
        → count
            (is_claim_of id)
            (update_where test (completed_with now result) db.preparation_claims)
          ≡ count (is_claim_of id) db.preparation_claims
    same id =
        count-update_same (is_claim_of id) test (completed_with now result) (λ x e. refl)
          db.preparation_claims

-- A new claim, where neither the approval nor the task has one that forbids it.
added-Extends :
    (approval_id task_id : ℕ) (digest : Text) (now : ℕ) (db : TaskTables)
    → any db.preparation_claims (is_claim_of approval_id) ≡ false
    → any db.preparation_claims (is_active_for task_id) ≡ false
    → Extends db (record db {
      preparation_claims = db.preparation_claims ++ new_claim approval_id task_id digest now ∷ [];
    })
added-Extends approval_id task_id digest now db fresh idle =
    let rows = db.preparation_claims in
    let row : PreparationClaim = new_claim approval_id task_id digest now in
    record {
      more = λ id. omega (arith, count-append (is_claim_of id) rows (row ∷ []));
      exclusive = λ h. record {
        once = λ id. elim (Bool-cases (approval_id == id)) [
          | inl e ↦
              subst (λ (j : ℕ). count (is_claim_of j) (rows ++ row ∷ []) ≤ 1)
                ((nat_beq_iff approval_id id).0 e)
                (ground (
                  arith,
                  count-append (is_claim_of approval_id) rows (row ∷ []),
                  any-count (is_claim_of approval_id) rows,
                ))
          | inr e ↦ ground (arith, count-append (is_claim_of id) rows (row ∷ []), h.once id)
        ];
        alone = λ id. elim (Bool-cases (task_id == id)) [
          | inl e ↦
              subst (λ (j : ℕ). count (is_active_for j) (rows ++ row ∷ []) ≤ 1)
                ((nat_beq_iff task_id id).0 e)
                (ground (
                  arith,
                  count-append (is_active_for task_id) rows (row ∷ []),
                  any-count (is_active_for task_id) rows,
                ))
          | inr e ↦ ground (arith, count-append (is_active_for id) rows (row ∷ []), h.alone id)
        ];
      };
    }

claim-Extends :
    (julianday : ℕ → ℕ) (approval_id task_id : ℕ) (digest : Text) (now : ℕ) (db : TaskTables)
    → Extends db (claim_preparation julianday approval_id task_id digest now db).0
unfolding claim_preparation
claim-Extends julianday approval_id task_id digest now db =
    if_both (λ (p : TaskTables × PreparationClaimOutcome). Extends db p.0)
      (any db.approvals (is_available julianday approval_id task_id digest now)
        && (not (any db.preparation_claims (is_claim_of approval_id))
            && not (any db.preparation_claims (is_active_for task_id))))
      _ _ (λ e. added-Extends approval_id task_id digest now db (ground arith) (ground arith))
      (λ _. same-Extends db _ (ground arith))

put_event-claims :
    (event : Option (Task × Text)) (db : TaskTables)
    → (put_event event db).preparation_claims ≡ db.preparation_claims
unfolding put_event put_task
put_event-claims none db = refl
put_event-claims (some (task, summary)) db = refl

put_events-claims :
    (events : List (Task × Text)) (db : TaskTables)
    → (put_events events db).preparation_claims ≡ db.preparation_claims
unfolding put_events put_task
put_events-claims [] db = refl
put_events-claims ((task, summary) ∷ events) db =
    put_events-claims events (put_task task summary db)

perform-Extends :
    (out : Outside) (op : Operation) (db : TaskTables) → Extends db (perform out op db)
unfolding perform save_task put_task save_task_events save_task_contract save_approval
    invalidate_task_approvals claim_delivery_with_task_event complete_delivery
    mark_delivery_ambiguous complete_delivery_with_task_events complete_failed_merge_delivery
    complete_preparation_claim recover_interrupted_preparations
perform-Extends out (saves_task task summary) db = same-Extends db _ refl
perform-Extends out (saves_events events) db = same-Extends db _ (put_events-claims events db)
perform-Extends out (saves_contract contract) db = same-Extends db _ refl
perform-Extends out (saves_approval approval) db = same-Extends db _ refl
perform-Extends out (invalidates now task_id) db = same-Extends db _ refl
perform-Extends out (claims_delivery now key event) db = same-Extends db _ (
    ground (
      arith,
      put_event-claims event (record db {
        deliveries =
            update_where (is_retry out.state_of key) (reclaimed now (event_task event))
              db.deliveries;
      }),
      put_event-claims event (record db {
        deliveries = db.deliveries ++ new_delivery key now (event_task event) ∷ [];
      }),
    ))
perform-Extends out (completes_delivery now key result) db = same-Extends db _ (ground arith)
perform-Extends out (marks_ambiguous key result) db = same-Extends db _ (ground arith)
perform-Extends out (completes_with_events now key result events) db =
    same-Extends db _ (ground (arith, put_events-claims events (finish key result (some now) db)))
perform-Extends out (fails_merge now key result task summary) db = same-Extends db _ (ground arith)
perform-Extends out (claims_preparation approval_id task_id digest now) db =
    claim-Extends out.julianday approval_id task_id digest now db
perform-Extends out (completes_preparation now approval_id result) db =
    if_both (λ (p : TaskTables × _). Extends db p.0) (not (is_result result)) _ _
      (λ _. same-Extends db db refl)
      (λ _. close-Extends (is_active_claim_of approval_id) now result db)
perform-Extends out (restarts now) db = close-Extends is_active now (codes "interrupted") db

perform_all-Extends :
    (out : Outside) (ops : List Operation) (db : TaskTables) → Extends db (perform_all out ops db)
unfolding perform_all
perform_all-Extends out [] db = same-Extends db db refl
perform_all-Extends out (op ∷ ops) db =
    let one = perform-Extends out op db in
    let rest = perform_all-Extends out ops (perform out op db) in
    record {
      more = λ id. omega (arith, one.more id, rest.more id);
      exclusive = λ h. rest.exclusive (one.exclusive h);
    }

-- Whatever operations and restarts run on tables without claims, every approval is claimed at most
-- once and every task has at most one active preparation.
pub perform_all-IsExclusive :
    (out : Outside) (ops : List Operation) (db : TaskTables)
    → db.preparation_claims ≡ []
    → IsExclusive (perform_all out ops db)
perform_all-IsExclusive out ops db e = (perform_all-Extends out ops db).exclusive (record {
  once = λ id. subst (λ rows. count (is_claim_of id) rows ≤ 1) (sym e) (omega arith);
  alone = λ id. subst (λ rows. count (is_active_for id) rows ≤ 1) (sym e) (omega arith);
})

claimed_now :
    (julianday : ℕ → ℕ) (id task_id : ℕ) (digest : Text) (now : ℕ) (db : TaskTables)
    → (claim_preparation julianday id task_id digest now db).1 ≡ claimed
    → 1 ≤ claims_of id (claim_preparation julianday id task_id digest now db).0
unfolding claim_preparation
claimed_now julianday id task_id digest now db h = ground (
  arith,
  count-append (is_claim_of id) db.preparation_claims (new_claim id task_id digest now ∷ []),
)

claimed_before :
    (julianday : ℕ → ℕ) (id task_id : ℕ) (digest : Text) (now : ℕ) (db : TaskTables)
    → 1 ≤ claims_of id db
    → (claim_preparation julianday id task_id digest now db).1 ≡ already_claimed
unfolding claim_preparation
claimed_before julianday id task_id digest now db h =
    ground (arith, any-count (is_claim_of id) db.preparation_claims)

-- An approval that a preparation was claimed with answers every later claim, for any task and
-- action, with `already_claimed`, whatever operations and restarts come between.
pub claim_preparation-claim_preparation :
    (out : Outside) (id first_task second_task : ℕ) (first_digest second_digest : Text)
    (first second : ℕ) (db : TaskTables) (ops : List Operation)
    → (claim_preparation out.julianday id first_task first_digest first db).1 ≡ claimed
    → (claim_preparation out.julianday id second_task second_digest second (
        perform_all out ops
          (claim_preparation out.julianday id first_task first_digest first db).0)).1
      ≡ already_claimed
claim_preparation-claim_preparation out id first_task second_task first_digest second_digest first
      second db ops h =
    let after = (claim_preparation out.julianday id first_task first_digest first db).0 in
    let one = claimed_now out.julianday id first_task first_digest first db h in
    let kept = (perform_all-Extends out ops after).more id in
    claimed_before out.julianday id second_task second_digest second (perform_all out ops after)
      (omega arith)
