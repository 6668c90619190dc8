-- ===== src/Engine/JobStore.antt =====
-- The tables `jobs` and `job_events` of crates/patchwright-engine/src/store.rs, and the operations
-- on them. A transaction that is rolled back leaves the tables as they were. Texts that the tables
-- hold for enumerations, identities and checkpoints stand for the values themselves; the text of a
-- UUID has the order of the number. A generation is bound as a signed 64-bit integer.
pub mod Soundness
pub mod Creation
pub mod Transitions
pub mod Recovery
pub mod Histories
pub mod Finality
pub mod Exclusion
pub mod Restart
pub mod Safety
pub mod Summaries
mod Tests
use patchwright.Prelude.{
  ℕ, ◌+◌, ◌-◌, ◌^◌, Bool, true, false, not, ◌&&◌, ◌||◌, Option, none, some, List, [], ◌∷◌, ◌++◌,
  Result, ok, err, any, count, find, retain, leb, if◌then◌else◌, ◌==◌, nat_eq, map,
}
use patchwright.Prelude.Text.{Text, codes}
use patchwright.Prelude.Sorting.{sort_by}
use patchwright.Prelude.Tables.{update_where}
use patchwright.Engine.Jobs.{
  Job, JobState, job_state_eq, running, cancelling, interrupted, CancellationState, JobCheckpoint,
  JobError, permits, validate_summary,
}

pub record JobEvent : Type 0 where
  pub job_id : ℕ
  pub state : JobState
  pub summary : Text
  pub checkpoint : Option JobCheckpoint
  pub occurred_at : ℕ

pub record JobTables : Type 0 where
  pub jobs : List Job
  pub events : List JobEvent

pub data StoreError : Type 0 where
  invalid_transition : JobState → JobState → StoreError
  invalid_job : JobError → StoreError
  duplicate_key : StoreError
  out_of_range : StoreError

abbrev pub max_i64 : ℕ
max_i64 = 2 ^ 63 - 1

abbrev pub has_id : ℕ → Job → Bool
has_id id job = job.id == id

-- `SELECT … FROM jobs WHERE id = ?1`.
unfoldable pub find_job : ℕ → List Job → Option Job
find_job id jobs = find (has_id id) jobs

-- `EventStore::create_job`. The key of `jobs` is the identity.
unfoldable pub create_job : Job → JobTables → JobTables × Result StoreError Unit
create_job job db =
    if any db.jobs (has_id job.id)
    then (db, err duplicate_key)
    else if not (leb job.generation max_i64)
    then (db, err out_of_range)
    else (
      record {
        jobs = db.jobs ++ job ∷ [];
        events =
            db.events
            ++ record {
              job_id = job.id;
              state = job.state;
              summary = job.summary;
              checkpoint = job.checkpoint;
              occurred_at = job.created_at;
            }
              ∷ [];
      },
      ok tt,
    )

-- `checkpoint_payload.or(existing_checkpoint)`.
abbrev pub or_else : Option JobCheckpoint → Option JobCheckpoint → Option JobCheckpoint
or_else (some c) existing = some c
or_else none existing = existing

-- The test of the `UPDATE` in `transition_job`.
abbrev pub is_current : ℕ → JobState → ℕ → Job → Bool
is_current id expected generation job =
    job.id == id && (job.state == expected && job.generation == generation)

-- The row that `transition_job` writes.
abbrev pub advanced : ℕ → JobState → CancellationState → Text → Option JobCheckpoint → ℕ → Job → Job
advanced now next cancellation summary checkpoint generation job = record job {
  state = next;
  cancellation = cancellation;
  summary = summary;
  checkpoint = checkpoint;
  updated_at = now;
  generation = generation + 1;
}

-- `transition_job` once the row is read.
unfoldable pub transition_row :
    ℕ
    → ℕ
    → JobState
    → JobState
    → CancellationState
    → Text
    → Option JobCheckpoint
    → Job
    → JobTables
    → JobTables × Result StoreError Bool
transition_row now id expected next cancellation summary checkpoint current db =
    let payload = or_else checkpoint current.checkpoint in
    let test = is_current id expected current.generation in
    if not (current.state == expected)
    then (db, ok false)
    else if not (leb (current.generation + 1) max_i64)
    then (db, err out_of_range)
    else if not (count test db.jobs == 1)
    then (db, ok false)
    else (
      record {
        jobs =
            update_where test (advanced now next cancellation summary payload current.generation)
              db.jobs;
        events =
            db.events
            ++ record {
              job_id = id;
              state = next;
              summary = summary;
              checkpoint = payload;
              occurred_at = now;
            }
              ∷ [];
      },
      ok true,
    )

unfoldable pub transition_found :
    ℕ
    → ℕ
    → JobState
    → JobState
    → CancellationState
    → Text
    → Option JobCheckpoint
    → Option Job
    → JobTables
    → JobTables × Result StoreError Bool
transition_found now id expected next cancellation summary checkpoint none db = (db, ok false)
transition_found now id expected next cancellation summary checkpoint (some current) db =
    transition_row now id expected next cancellation summary checkpoint current db

unfoldable pub transition_checked :
    ℕ
    → ℕ
    → JobState
    → JobState
    → CancellationState
    → Result JobError Text
    → Option JobCheckpoint
    → JobTables
    → JobTables × Result StoreError Bool
transition_checked now id expected next cancellation (err e) checkpoint db =
    (db, err (invalid_job e))
transition_checked now id expected next cancellation (ok summary) checkpoint db =
    transition_found now id expected next cancellation summary checkpoint (find_job id db.jobs) db

-- `EventStore::transition_job`.
unfoldable pub transition_job :
    ℕ
    → ℕ
    → JobState
    → JobState
    → CancellationState
    → Text
    → Option JobCheckpoint
    → JobTables
    → JobTables × Result StoreError Bool
transition_job now id expected next cancellation summary checkpoint db =
    if not (permits expected next)
    then (db, err (invalid_transition expected next))
    else transition_checked now id expected next cancellation (validate_summary summary) checkpoint
        db

-- `state IN ('running', 'cancelling')`.
unfoldable pub is_recoverable : JobState → Bool
is_recoverable running = true
is_recoverable cancelling = true
is_recoverable _ = false

abbrev pub restart_summary : Text
restart_summary = codes "engine restart interrupted job"

abbrev pub recover_test : Job → Job → Bool
recover_test target job =
    job.id == target.id && (job.generation == target.generation && is_recoverable job.state)

abbrev pub recovered : ℕ → Job → Job → Job
recovered now target job = record job {
  state = interrupted;
  summary = restart_summary;
  updated_at = now;
  generation = target.generation + 1;
}

-- `INSERT INTO job_events … SELECT … FROM jobs WHERE id = ?1`.
abbrev pub recovery_event : ℕ → Job → JobEvent
recovery_event now job = record {
  job_id = job.id;
  state = interrupted;
  summary = restart_summary;
  checkpoint = job.checkpoint;
  occurred_at = now;
}

-- One round of the loop in `recover_interrupted_jobs`. `nows` holds what the clock shows.
unfoldable pub recover_row : ℕ → Job → JobTables → JobTables
unfolding is_recoverable
recover_row now target db =
    let jobs = update_where (recover_test target) (recovered now target) db.jobs in
    if count (recover_test target) db.jobs == 1
    then record {
      jobs = jobs;
      events = db.events ++ map (recovery_event now) (retain (has_id target.id) jobs);
    }
    else record { jobs = jobs; events = db.events }

unfoldable pub recover_rows : (ℕ → ℕ) → List Job → JobTables → Result StoreError JobTables
recover_rows clock [] db = ok db
recover_rows clock (target ∷ rest) db =
    let done = recover_rows clock rest (recover_row (clock target.id) target db) in
    if leb (target.generation + 1) max_i64 then done else err out_of_range

abbrev pub is_recoverable_job : Job → Bool
is_recoverable_job job = is_recoverable job.state

-- The transaction commits what the loop leaves, or is rolled back on its error.
unfoldable pub commit_or_rollback :
    JobTables → Result StoreError JobTables → JobTables × Result StoreError Unit
commit_or_rollback before (ok after) = (after, ok tt)
commit_or_rollback before (err e) = (before, err e)

-- The rows that `recover_interrupted_jobs` reads first, `ORDER BY id`.
abbrev pub recoverable_rows : JobTables → List Job
recoverable_rows db = sort_by (λ a b. leb a.id b.id) (retain is_recoverable_job db.jobs)

-- `EventStore::recover_interrupted_jobs`; `clock` gives the time at which a job's round runs.
unfoldable pub recover_interrupted_jobs : (ℕ → ℕ) → JobTables → JobTables × Result StoreError Unit
recover_interrupted_jobs clock db =
    commit_or_rollback db (recover_rows clock (recoverable_rows db) db)
