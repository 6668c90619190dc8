-- ===== src/Engine/JobStore/Histories.antt =====
-- What any sequence of job operations does (crates/patchwright-engine/src/store.rs).
use patchwright.Prelude.{ℕ, ◌≡◌, Option, [], ok, arith, nat_eq}
use patchwright.Prelude.Text.{Text}
use patchwright.Engine.Jobs
use patchwright.Engine.Jobs.{
  Job, JobKind, JobState, job_state_eq, JobError, CancellationState, JobCheckpoint, permits,
}
use patchwright.Engine.JobStore.{JobTables, create_job, transition_job, recover_interrupted_jobs}
use patchwright.Engine.JobStore.Soundness.{IsSound, Evolves-IsSound}
use patchwright.Engine.JobStore.Creation.{create_job-IsSound}
use patchwright.Engine.JobStore.Transitions.{transition_job-Evolves}
use patchwright.Engine.JobStore.Recovery.{recover_interrupted_jobs-Evolves}

abbrev pub no_jobs : JobTables
no_jobs = record { jobs = []; events = [] }

-- One operation on the tables, with any arguments: a new job stored, a transition tried, a restart.
pub data Step : JobTables → JobTables → Type 0 where
  created :
      (id now : ℕ) (kind : JobKind) (task : Option ℕ) (summary : Text) (job : Job) (db : JobTables)
      → Jobs.new id now kind task summary ≡ ok job
      → Step db (create_job job db).0
  moved :
      (now id : ℕ) (expected target : JobState) (cancellation : CancellationState) (summary : Text)
      (checkpoint : Option JobCheckpoint) (db : JobTables)
      → Step db (transition_job now id expected target cancellation summary checkpoint db).0
  restarted : (clock : ℕ → ℕ) (db : JobTables) → Step db (recover_interrupted_jobs clock db).0

pub data Reach (start : JobTables) : JobTables → Type 0 where
  here : Reach start start
  then : {db after : JobTables} → Reach start db → Step db after → Reach start after

new-generation :
    (id now : ℕ) (kind : JobKind) (task : Option ℕ) (summary : Text) {job : Job}
    → Jobs.new id now kind task summary ≡ ok job
    → job.generation ≡ 0
unfolding Jobs.new
new-generation id now kind task summary h = ground arith

pub Step-IsSound : {db after : JobTables} → Step db after → IsSound db → IsSound after
Step-IsSound (created id now kind task summary job db e) h =
    create_job-IsSound job db (new-generation id now kind task summary e) h
Step-IsSound (moved now id expected target cancellation summary checkpoint db) h =
    Evolves-IsSound
      (transition_job-Evolves now id expected target cancellation summary checkpoint db) h
Step-IsSound (restarted clock db) h =
    Evolves-IsSound (recover_interrupted_jobs-Evolves clock db h) h

-- Whatever operations run on empty tables, no two jobs share an identity, and the events of each
-- job form a path of permitted transitions that ends in the state of its row, as many steps long
-- as its generation.
pub Reach-IsSound : {db : JobTables} → Reach no_jobs db → IsSound db
Reach-IsSound here = record { unique = tt; logged = tt; owned = tt }
Reach-IsSound (then r s) = Step-IsSound s (Reach-IsSound r)
