-- ===== src/Engine/JobStore/Safety.antt =====
-- Every summary in the tables has passed validation (crates/patchwright-engine/src/jobs.rs and
-- store.rs).
use patchwright.Prelude.{
  ℕ, ◌+◌, ◌≡◌, refl, subst, ap, inl, inr, Option, none, some, List, [], ◌∷◌, map, Result, ok, err,
  All, arith, Bool-cases, ◌==◌, count, retain, any, leb, nat_eq, >>=-eq-ok, ok-injective,
}
use patchwright.Prelude.Text.{Text, trim, len, contains_text, to_ascii_lowercase}
use patchwright.Prelude.Text.Laws.{trim_idempotent}
use patchwright.Prelude.Tables.{update_where, All-update_where, All-append, All-map}
use patchwright.Engine.Jobs
use patchwright.Engine.Jobs.{
  max_summary_bytes, Job, JobKind, JobState, job_state_eq, JobError, CancellationState,
  JobCheckpoint, permits, validate_summary, is_line_break, credential_shaped,
}
use patchwright.Engine.JobStore.{
  JobTables, has_id, max_i64, is_current, advanced, or_else, find_job, create_job, transition_row,
  transition_found, transition_checked, transition_job, recover_test, recovered, recovery_event,
  recover_row, recover_rows, recoverable_rows, StoreError, commit_or_rollback,
  recover_interrupted_jobs, restart_summary,
}
use patchwright.Engine.JobStore.Histories.{
  Step, created, moved, restarted, Reach, here, then, no_jobs,
}

-- A text that validation accepts as it is.
abbrev pub IsSafe : Text → Type 0
IsSafe summary = validate_summary summary ≡ ok summary

-- Validation accepts what it returns.
pub validate_summary-IsSafe :
    (value : Text) {summary : Text} → validate_summary value ≡ ok summary → IsSafe summary
unfolding validate_summary
validate_summary-IsSafe value {summary} e = ground (arith, trim_idempotent value)

-- The summaries of all rows are safe.
pub record AreSafe (db : JobTables) : Type 0 where
  pub jobs : All (λ job. IsSafe job.summary) db.jobs
  pub events : All (λ event. IsSafe event.summary) db.events

create_job-AreSafe :
    (job : Job) (db : JobTables) → IsSafe job.summary → AreSafe db → AreSafe (create_job job db).0
unfolding create_job
create_job-AreSafe job db s h = elim (Bool-cases (any db.jobs (has_id job.id))) [
  | inl known ↦ rw known h
  | inr fresh ↦ elim (Bool-cases (leb job.generation max_i64)) [
    | inl fits ↦
        rw (fresh, fits)
          (record {
            jobs = All-append (λ j. IsSafe j.summary) db.jobs (job ∷ []) h.jobs (s, tt);
            events = All-append (λ e. IsSafe e.summary) db.events _ h.events (s, tt);
          })
    | inr over ↦ rw (fresh, over) h
  ]
]

transition_row-AreSafe :
    (now id : ℕ) (expected next : JobState) (cancellation : CancellationState) (summary : Text)
    (checkpoint : Option JobCheckpoint) (current : Job) (db : JobTables)
    → IsSafe summary
    → AreSafe db
    → AreSafe (transition_row now id expected next cancellation summary checkpoint current db).0
unfolding transition_row
transition_row-AreSafe now id expected next cancellation summary checkpoint current db s h =
    elim (Bool-cases (current.state == expected)) [
      | inr other ↦ rw other h
      | inl same ↦ elim (Bool-cases (leb (current.generation + 1) max_i64)) [
        | inr over ↦ rw (same, over) h
        | inl fits ↦
            elim (Bool-cases (count (is_current id expected current.generation) db.jobs == 1)) [
              | inr lost ↦ rw (same, fits, lost) h
              | inl won ↦
                  rw (same, fits, won)
                    (record {
                      jobs =
                          All-update_where (λ j. IsSafe j.summary)
                            (is_current id expected current.generation)
                            (advanced now next cancellation summary
                              (or_else checkpoint current.checkpoint) current.generation)
                            db.jobs (All-map (λ j safe. (λ _. s, λ _. safe)) db.jobs h.jobs);
                      events = All-append (λ e. IsSafe e.summary) db.events _ h.events (s, tt);
                    })
            ]
      ]
    ]

transition_found-AreSafe :
    (now id : ℕ) (expected next : JobState) (cancellation : CancellationState) (summary : Text)
    (checkpoint : Option JobCheckpoint) (found : Option Job) (db : JobTables)
    → IsSafe summary
    → AreSafe db
    → AreSafe (transition_found now id expected next cancellation summary checkpoint found db).0
unfolding transition_found
transition_found-AreSafe now id expected next cancellation summary checkpoint none db s h = h
transition_found-AreSafe now id expected next cancellation summary checkpoint (some current) db s
      h =
    transition_row-AreSafe now id expected next cancellation summary checkpoint current db s h

transition_checked-AreSafe :
    (now id : ℕ) (expected next : JobState) (cancellation : CancellationState)
    (given : Result JobError Text) (checkpoint : Option JobCheckpoint) (db : JobTables)
    → ((summary : Text) → given ≡ ok summary → IsSafe summary)
    → AreSafe db
    → AreSafe (transition_checked now id expected next cancellation given checkpoint db).0
unfolding transition_checked
transition_checked-AreSafe now id expected next cancellation (err e) checkpoint db s h = h
transition_checked-AreSafe now id expected next cancellation (ok summary) checkpoint db s h =
    transition_found-AreSafe now id expected next cancellation summary checkpoint
      (find_job id db.jobs) db (s summary refl) h

transition_job-AreSafe :
    (now id : ℕ) (expected next : JobState) (cancellation : CancellationState) (summary : Text)
    (checkpoint : Option JobCheckpoint) (db : JobTables)
    → AreSafe db
    → AreSafe (transition_job now id expected next cancellation summary checkpoint db).0
unfolding transition_job
transition_job-AreSafe now id expected next cancellation summary checkpoint db h =
    elim (Bool-cases (permits expected next)) [
      | inr barred ↦ rw barred h
      | inl open_way ↦ rw open_way (
          transition_checked-AreSafe now id expected next cancellation (validate_summary summary)
            checkpoint db (λ text e. validate_summary-IsSafe summary e) h)
    ]

restart_summary-IsSafe : IsSafe restart_summary
unfolding validate_summary is_line_break credential_shaped trim len contains_text to_ascii_lowercase
restart_summary-IsSafe = refl

recover_row-AreSafe :
    (now : ℕ) (target : Job) (db : JobTables) → AreSafe db → AreSafe (recover_row now target db)
unfolding recover_row
recover_row-AreSafe now target db h =
    let moved_jobs =
      All-update_where (λ j. IsSafe j.summary) (recover_test target) (recovered now target) db.jobs
        (All-map (λ j safe. (λ _. restart_summary-IsSafe, λ _. safe)) db.jobs h.jobs) in
    elim (Bool-cases (count (recover_test target) db.jobs == 1)) [
      | inr missed ↦ rw missed (record { jobs = moved_jobs; events = h.events })
      | inl hit ↦ rw hit (record {
        jobs = moved_jobs;
        events =
            All-append (λ e. IsSafe e.summary) db.events
              (map (recovery_event now) (
                retain (has_id target.id)
                  (update_where (recover_test target) (recovered now target) db.jobs)))
              h.events
              (events_safe now (
                retain (has_id target.id)
                  (update_where (recover_test target) (recovered now target) db.jobs)));
      })
    ]
  where
    events_safe :
        (t : ℕ) (rows : List Job) → All (λ e. IsSafe e.summary) (map (recovery_event t) rows)
    events_safe t [] = tt
    events_safe t (row ∷ rows) = (restart_summary-IsSafe, events_safe t rows)

recover_rows-AreSafe :
    (clock : ℕ → ℕ) (targets : List Job) (db : JobTables) {after : JobTables}
    → AreSafe db
    → recover_rows clock targets db ≡ ok after
    → AreSafe after
unfolding recover_rows
recover_rows-AreSafe clock [] db h e = subst AreSafe (ok-injective e) h
recover_rows-AreSafe clock (target ∷ rest) db h e =
    elim (Bool-cases (leb (target.generation + 1) max_i64)) [
      | inl fits ↦
          recover_rows-AreSafe clock rest (recover_row (clock target.id) target db)
            (recover_row-AreSafe (clock target.id) target db h) (rw fits at e)
      | inr over ↦ cc (rw over at e)
    ]

commit_or_rollback-AreSafe :
    (db : JobTables) (result : Result StoreError JobTables)
    → AreSafe db
    → ((after : JobTables) → result ≡ ok after → AreSafe after)
    → AreSafe (commit_or_rollback db result).0
unfolding commit_or_rollback
commit_or_rollback-AreSafe db (ok after) h k = k after refl
commit_or_rollback-AreSafe db (err e) h k = h

Step-AreSafe : {db after : JobTables} → Step db after → AreSafe db → AreSafe after
unfolding Jobs.new recover_interrupted_jobs
Step-AreSafe (created id now kind task summary job db e) h =
    let (text, valid, same) = >>=-eq-ok (validate_summary summary) _ e in
    create_job-AreSafe job db
      (subst IsSafe (ap (λ j. j.summary) (ok-injective same))
        (validate_summary-IsSafe summary valid))
      h
Step-AreSafe (moved now id expected target cancellation summary checkpoint db) h =
    transition_job-AreSafe now id expected target cancellation summary checkpoint db h
Step-AreSafe (restarted clock db) h =
    commit_or_rollback-AreSafe db (recover_rows clock (recoverable_rows db) db) h
      (λ after e. recover_rows-AreSafe clock (recoverable_rows db) db h e)

pub Reach-AreSafe : {db : JobTables} → Reach no_jobs db → AreSafe db
Reach-AreSafe here = record { jobs = tt; events = tt }
Reach-AreSafe (then history step) = Step-AreSafe step (Reach-AreSafe history)
