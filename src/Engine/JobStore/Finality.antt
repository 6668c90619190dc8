-- ===== src/Engine/JobStore/Finality.antt =====
-- A finished job stays as it is (crates/patchwright-engine/src/store.rs).
use patchwright.Prelude.{
  ◌≡◌, inl, inr, Bool, true, false, some, List, [], ◌∷◌, arith, Bool-cases, any, leb, nat_eq, ◌++◌,
}
use patchwright.Prelude.Tables.{update_where, find-update_where, find-append}
use patchwright.Engine.Jobs.{Job, JobState, job_state_eq, permits, cancelled, succeeded, failed}
use patchwright.Engine.JobStore.{JobEvent, JobTables, has_id, max_i64, create_job, find_job}
use patchwright.Engine.JobStore.Soundness.{IsAdvance, IsSound, Evolves, stays, advances}
use patchwright.Engine.JobStore.Transitions.{transition_job-Evolves}
use patchwright.Engine.JobStore.Recovery.{recover_interrupted_jobs-Evolves}
use patchwright.Engine.JobStore.Histories.{
  Step, created, moved, restarted, Reach, Step-IsSound, here, then,
}

unfoldable pub is_finished : JobState → Bool
is_finished cancelled = true
is_finished succeeded = true
is_finished failed = true
is_finished _ = false

finished-permits : (s t : JobState) → is_finished s ≡ true → permits s t ≡ false
unfolding is_finished permits
finished-permits s t h = ground arith

-- The job stands in the tables, finished.
abbrev Holds : Job → JobTables → Type 0
Holds row db = find_job row.id db.jobs ≡ some row

finished_passed_over :
    {test : Job → Bool} {change : Job → Job} {e : JobEvent}
    → IsAdvance test change e
    → (row : Job) → is_finished row.state ≡ true
    → test row ≡ false
finished_passed_over {test} {e = e} adv row f = elim (Bool-cases (test row)) [
  | inl t ↦ cc (adv.allowed row t, finished-permits row.state e.state f)
  | inr t ↦ t
]

advance-Holds :
    {test : Job → Bool} {change : Job → Job} {e : JobEvent}
    → IsAdvance test change e
    → (row : Job) (jobs : List Job) (events : List JobEvent) → is_finished row.state ≡ true
    → find_job row.id jobs ≡ some row
    → Holds row (record { jobs = update_where test change jobs; events = events })
unfolding find_job
advance-Holds {test} {change} adv row jobs events f h =
    find-update_where (has_id row.id) test change (λ j t. rw (adv.key_kept j t)) jobs
      (finished_passed_over adv row f) h

create_job-Holds : (job row : Job) (db : JobTables) → Holds row db → Holds row (create_job job db).0
unfolding create_job find_job
create_job-Holds job row db h = elim (Bool-cases (any db.jobs (has_id job.id))) [
  | inl taken ↦ rw taken h
  | inr fresh ↦ elim (Bool-cases (leb job.generation max_i64)) [
    | inl fits ↦ rw (fresh, fits) (find-append (has_id row.id) db.jobs (job ∷ []) h)
    | inr large ↦ rw (fresh, large) h
  ]
]

Evolves-Holds :
    (row : Job) {db after : JobTables}
    → is_finished row.state ≡ true
    → Evolves db after
    → Holds row db
    → Holds row after
Evolves-Holds row f stays h = h
Evolves-Holds row f (advances {mid = mid} {e = e} before adv one) h =
    advance-Holds adv row mid.jobs (mid.events ++ e ∷ []) f (Evolves-Holds row f before h)

Step-Holds :
    (row : Job) {db after : JobTables}
    → is_finished row.state ≡ true
    → IsSound db
    → Step db after
    → Holds row db
    → Holds row after
Step-Holds row f s (created id now kind task summary job db e) h = create_job-Holds job row db h
Step-Holds row f s (moved now id expected next cancellation summary checkpoint db) h =
    Evolves-Holds row f
      (transition_job-Evolves now id expected next cancellation summary checkpoint db) h
Step-Holds row f s (restarted clock db) h =
    Evolves-Holds row f (recover_interrupted_jobs-Evolves clock db s) h

Reach-IsSound_from : {db after : JobTables} → IsSound db → Reach db after → IsSound after
Reach-IsSound_from h here = h
Reach-IsSound_from h (then r s) = Step-IsSound s (Reach-IsSound_from h r)

-- A job that is cancelled, succeeded or failed in sound tables keeps its row exactly as it is,
-- whatever operations follow, restarts of the engine included.
pub finished-stays :
    (row : Job) {db after : JobTables}
    → IsSound db
    → is_finished row.state ≡ true
    → find_job row.id db.jobs ≡ some row
    → Reach db after
    → find_job row.id after.jobs ≡ some row
finished-stays row h f held here = held
finished-stays row h f held (then r s) =
    Step-Holds row f (Reach-IsSound_from h r) s (finished-stays row h f held r)
