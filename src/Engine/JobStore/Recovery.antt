-- ===== src/Engine/JobStore/Recovery.antt =====
-- `recover_interrupted_jobs` only advances jobs along permitted transitions (crates/patchwright-engine/src/store.rs).
use patchwright.Prelude.{
  ℕ, ◌≤◌, ◌≡◌, refl, sym, ◌∙◌, subst, inl, inr, true, false, ◌&&◌, List, [], ◌∷◌, Result, ok, err,
  All, count, retain, Bool-cases, arith, ◌==◌, nat_eq, nat_beq_iff, &&-eq-true, ok-injective,
}
use patchwright.Prelude.Tables.{
  update_where, All-retain, update_where-count_zero, count-le_of_implies, All-always,
}
use patchwright.Prelude.Tables.Keys.{
  HasUniqueKeys-update_where, retain_one, count-le_one, count-update_where,
}
use patchwright.Engine.Jobs.{Job, JobState, job_state_eq, interrupted, permits}
use patchwright.Engine.JobStore.{
  JobTables, has_id, recover_test, recovered, recovery_event, is_recoverable, recover_row,
  recover_rows, recoverable_rows, StoreError, commit_or_rollback, recover_interrupted_jobs,
}
use patchwright.Engine.JobStore.Soundness.{
  Evolves, stays, advances, Evolves-IsSound, IsSound, IsAdvance,
}

pub recover-parts :
    (target j : Job)
    → recover_test target j ≡ true
    → (j.id ≡ target.id) × (j.generation ≡ target.generation) × (is_recoverable j.state ≡ true)
recover-parts target j h =
    let (i, rest) =
      &&-eq-true (j.id == target.id) (j.generation == target.generation && is_recoverable j.state)
        h in
    let (n, s) = &&-eq-true (j.generation == target.generation) (is_recoverable j.state) rest in
    ((nat_beq_iff j.id target.id).0 i, (nat_beq_iff j.generation target.generation).0 n, s)

recoverable-interrupted : (s : JobState) → is_recoverable s ≡ true → permits s interrupted ≡ true
unfolding is_recoverable permits
recoverable-interrupted s h = ground arith

pub recovered-IsAdvance :
    (now : ℕ) (target row : Job)
    → row.id ≡ target.id
    → IsAdvance (recover_test target) (recovered now target) (recovery_event now row)
recovered-IsAdvance now target row e = record {
  own = λ j t. (recover-parts target j t).0 ∙ sym e;
  allowed = λ j t. recoverable-interrupted j.state (recover-parts target j t).2;
  key_kept = λ j t. refl;
  state_set = λ j t. refl;
  generation_up = λ j t. omega (arith, (recover-parts target j t).1);
}

-- The rows of the target after the update.
abbrev rows_after : ℕ → Job → JobTables → List Job
rows_after now target db =
    retain (has_id target.id) (update_where (recover_test target) (recovered now target) db.jobs)

own_rows :
    (target : Job) (db : JobTables)
    → count (recover_test target) db.jobs ≤ count (has_id target.id) db.jobs
own_rows target db =
    count-le_of_implies (recover_test target) (has_id target.id) db.jobs
      (All-always (λ j t. (nat_beq_iff j.id target.id).1 (recover-parts target j t).0) db.jobs)

one_row :
    (now : ℕ) (target : Job) (db : JobTables)
    → IsSound db
    → count (recover_test target) db.jobs ≡ 1
    → (row : Job) × (rows_after now target db ≡ row ∷ []) × (row.id ≡ target.id)
one_row now target db h c =
    let unique =
      HasUniqueKeys-update_where (λ (j : Job). j.id) (recover_test target) (recovered now target)
        (λ j t. refl) db.jobs h.unique in
    let same =
      count-update_where (λ (j : Job). j.id) target.id (recover_test target) (recovered now target)
        (λ j t. refl) db.jobs in
    let (row, e) =
      retain_one (λ (j : Job). j.id) target.id
        (update_where (recover_test target) (recovered now target) db.jobs) unique
        (omega (arith, same, own_rows target db, c)) in
    (
      row,
      e,
      (nat_beq_iff row.id target.id).0
          (subst (All (λ j. has_id target.id j ≡ true)) e (
            All-retain (has_id target.id)
              (update_where (recover_test target) (recovered now target) db.jobs))).0,
    )

no_rows :
    (target : Job) (db : JobTables)
    → IsSound db
    → (count (recover_test target) db.jobs == 1) ≡ false
    → count (recover_test target) db.jobs ≡ 0
no_rows target db h other =
    ground (arith, own_rows target db, count-le_one (λ (j : Job). j.id) target.id db.jobs h.unique)

recover_row-Evolves :
    (now : ℕ) (target : Job) {start db : JobTables}
    → Evolves start db
    → IsSound db
    → Evolves start (recover_row now target db)
unfolding recover_row
recover_row-Evolves now target {start} {db} v h =
    elim (Bool-cases (count (recover_test target) db.jobs == 1)) [
      | inl one ↦
          let c = (nat_beq_iff (count (recover_test target) db.jobs) 1).0 one in
          let (row, e, own) = one_row now target db h c in
          rw (one, e) (advances v (recovered-IsAdvance now target row own) c)
      | inr other ↦
          let none_left = no_rows target db h other in
          rw
            (
              other,
              update_where-count_zero (recover_test target) (recovered now target) db.jobs
                  none_left,
            )
            v
    ]

recover_rows-Evolves :
    (clock : ℕ → ℕ) (targets : List Job) {start db after : JobTables}
    → IsSound start
    → Evolves start db
    → recover_rows clock targets db ≡ ok after
    → Evolves start after
unfolding recover_rows
recover_rows-Evolves clock [] {start} {db} {after} h v e = subst (Evolves start) (ok-injective e) v
recover_rows-Evolves clock (target ∷ rest) {start} {db} h v e =
    recover_rows-Evolves clock rest h
      (recover_row-Evolves (clock target.id) target v (Evolves-IsSound v h)) (ground arith)

commit_or_rollback-Evolves :
    (before : JobTables) (r : Result StoreError JobTables)
    → ((after : JobTables) → r ≡ ok after → Evolves before after)
    → Evolves before (commit_or_rollback before r).0
unfolding commit_or_rollback
commit_or_rollback-Evolves before (ok after) keep = keep after refl
commit_or_rollback-Evolves before (err e) keep = stays

pub recover_interrupted_jobs-Evolves :
    (clock : ℕ → ℕ) (db : JobTables) → IsSound db → Evolves db (recover_interrupted_jobs clock db).0
unfolding recover_interrupted_jobs
recover_interrupted_jobs-Evolves clock db h =
    commit_or_rollback-Evolves db (recover_rows clock (recoverable_rows db) db)
      (λ after. recover_rows-Evolves clock (recoverable_rows db) h stays)
