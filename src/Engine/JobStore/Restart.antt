-- ===== src/Engine/JobStore/Restart.antt =====
-- After a restart no job is left running (crates/patchwright-engine/src/store.rs).
use mathlib.Core.Bool.{or-true}
use patchwright.Prelude.{
  if◌then◌else◌, ℕ, ◌≡◌, ◌≢◌, refl, sym, subst, ◌∙◌, inl, inr, Bool, true, false, ◌||◌, List, [],
  ◌∷◌, Result, ok, err, All, arith, Bool-cases, ◌==◌, any, retain, count, nat_eq, same_refl,
  ok-injective,
}
use patchwright.Prelude.Sorting.{sort_by, insert_by}
use patchwright.Prelude.Tables.{update_where, All-update_where, All-map}
use patchwright.Engine.Jobs.{Job, JobState, interrupted, running, cancelling}
use patchwright.Engine.JobStore.{
  JobTables, StoreError, is_recoverable, is_recoverable_job, recover_test, recovered, recover_row,
  recover_rows, recoverable_rows, commit_or_rollback, recover_interrupted_jobs,
}

-- The row is one of the targets, as it was read.
abbrev is_target : List Job → Job → Bool
is_target targets job = any targets (λ t. recover_test t job)

-- Every job that still runs is among the targets left.
abbrev Pending : List Job → List Job → Type 0
Pending targets jobs = All (λ j. is_recoverable j.state ≡ true → is_target targets j ≡ true) jobs

any-insert_by :
    (le : Job → Job → Bool) (p : Job → Bool) (x : Job) (xs : List Job)
    → any (insert_by le x xs) p ≡ (p x || any xs p)
any-insert_by le p x [] = refl
any-insert_by le p x (y ∷ ys) = ground (arith, any-insert_by le p x ys)

any-sort_by :
    (le : Job → Job → Bool) (p : Job → Bool) (xs : List Job) → any (sort_by le xs) p ≡ any xs p
any-sort_by le p [] = refl
any-sort_by le p (x ∷ xs) = rw (any-insert_by le p x (sort_by le xs), any-sort_by le p xs)

any-retain-cons :
    (q p : Job → Bool) (x : Job) (xs : List Job)
    → any (retain q xs) p ≡ true
    → any (retain q (x ∷ xs)) p ≡ true
any-retain-cons q p x xs h = elim (Bool-cases (q x)) [
  | inl kept ↦ rw (kept, h) (or-true (p x))
  | inr left ↦ rw left h
]

-- The rows that are read first hold every job that runs.
retain-covers :
    (jobs : List Job)
    → All
        (λ j.
          is_recoverable j.state ≡ true
          → any (retain is_recoverable_job jobs) (λ t. recover_test t j) ≡ true)
        jobs
retain-covers [] = tt
retain-covers (x ∷ xs) = (
  λ runs. rw (runs, same_refl x.id, same_refl x.generation) refl,
  All-map (λ j o runs. any-retain-cons is_recoverable_job (λ t. recover_test t j) x xs (o runs)) xs
      (retain-covers xs),
)

jobs-recover_row :
    (now : ℕ) (target : Job) (db : JobTables)
    → (recover_row now target db).jobs
      ≡ update_where (recover_test target) (recovered now target) db.jobs
unfolding recover_row
jobs-recover_row now target db = elim (Bool-cases (count (recover_test target) db.jobs == 1)) [
  | inl one ↦ rw one
  | inr other ↦ rw other
]

interrupted_rests : ¬ (is_recoverable interrupted ≡ true)
unfolding is_recoverable
interrupted_rests h = cc

recover_row-Pending :
    (now : ℕ) (target : Job) (rest : List Job) (db : JobTables)
    → Pending (target ∷ rest) db.jobs
    → Pending rest (recover_row now target db).jobs
recover_row-Pending now target rest db h =
    subst (Pending rest) (sym (jobs-recover_row now target db)) (
      All-update_where (λ j. is_recoverable j.state ≡ true → is_target rest j ≡ true)
        (recover_test target) (recovered now target) db.jobs
        (All-map (λ j o. (λ t runs. absurd (interrupted_rests runs), λ f runs. rw f at (o runs)))
          db.jobs h))

past_limit :
    (fits : Bool) (done : Result StoreError JobTables) (e : StoreError) {after : JobTables}
    → (if fits then done else err e) ≡ ok after
    → done ≡ ok after
past_limit true done e h = h
past_limit false done e h = cc

recover_rows-Pending :
    (clock : ℕ → ℕ) (targets : List Job) (db : JobTables) {after : JobTables}
    → Pending targets db.jobs
    → recover_rows clock targets db ≡ ok after
    → Pending [] after.jobs
unfolding recover_rows
recover_rows-Pending clock [] db h e = subst (λ t. Pending [] t.jobs) (ok-injective e) h
recover_rows-Pending clock (target ∷ rest) db h e =
    recover_rows-Pending clock rest (recover_row (clock target.id) target db)
      (recover_row-Pending (clock target.id) target rest db h) (past_limit _ _ _ e)

recoverable_rows-Pending : (db : JobTables) → Pending (recoverable_rows db) db.jobs
recoverable_rows-Pending db =
    All-map
      (λ j o runs.
        any-sort_by _ (λ t. recover_test t j) (retain is_recoverable_job db.jobs) ∙ o runs)
      db.jobs (retain-covers db.jobs)

commit-Pending :
    (before : JobTables) (r : Result StoreError JobTables)
    → (commit_or_rollback before r).1 ≡ ok tt
    → ((after : JobTables) → r ≡ ok after → Pending [] after.jobs)
    → Pending [] (commit_or_rollback before r).0.jobs
unfolding commit_or_rollback
commit-Pending before (ok after) h keep = keep after refl
commit-Pending before (err e) h keep = cc

no_target : (runs : Bool) → (runs ≡ true → false ≡ true) → runs ≡ false
no_target true h = sym (h refl)
no_target false h = refl

not_both : ¬ (true ≡ false)
not_both h = cc

at_rest : (s : JobState) → is_recoverable s ≡ false → (s ≢ running) × (s ≢ cancelling)
unfolding is_recoverable
at_rest s h = (
  λ e. not_both (subst (λ s. is_recoverable s ≡ false) e h),
  λ e. not_both (subst (λ s. is_recoverable s ≡ false) e h),
)

-- When the recovery of a restart succeeds, no job is running or cancelling any more.
pub recover-none_running :
    (clock : ℕ → ℕ) (db : JobTables)
    → (recover_interrupted_jobs clock db).1 ≡ ok tt
    → All
        (λ j. (j.state ≢ running) × (j.state ≢ cancelling))
        (recover_interrupted_jobs clock db).0.jobs
unfolding recover_interrupted_jobs
recover-none_running clock db h =
    All-map (λ j o. at_rest j.state (no_target (is_recoverable j.state) o)) _
      (commit-Pending db (recover_rows clock (recoverable_rows db) db) h (λ after.
        recover_rows-Pending clock (recoverable_rows db) db (recoverable_rows-Pending db)))
