-- ===== src/Engine/JobStore/Tests.antt =====
-- Runs of the job tables, and their theorems at concrete inputs.
use patchwright.Prelude.{◌≡◌, ◌≢◌, refl, true, none, some, ok, All, decide}
use patchwright.Prelude.Text.{codes, trim, len, to_ascii_lowercase, contains_text}
use patchwright.Engine.Jobs
use patchwright.Engine.Jobs.{
  cancelling, Job, JobState-discrete, github_sync, queued, running, succeeded, failed,
  not_requested, requested, permits, validate_summary, credential_shaped,
}
use patchwright.Engine.JobStore.{
  JobTables, find_job, create_job, transition_job, transition_checked, transition_found,
  transition_row, recover_interrupted_jobs, recover_rows, recover_row, is_recoverable,
  commit_or_rollback,
}
use patchwright.Engine.JobStore.Soundness.{IsSound}
use patchwright.Engine.JobStore.Summaries.{IsHarmless, Reach-IsHarmless}
use patchwright.Engine.JobStore.Histories.{
  Reach, here, then, created, moved, restarted, no_jobs, Reach-IsSound,
}
use patchwright.Engine.JobStore.Exclusion.{transition_job-once}
use patchwright.Engine.JobStore.Restart.{recover-none_running}
use patchwright.Engine.JobStore.Finality.{is_finished, finished-stays}

abbrev job : Job
job = record {
  id = 7;
  kind = github_sync;
  task_id = none;
  state = queued;
  cancellation = not_requested;
  summary = codes "sync";
  checkpoint = none;
  created_at = 1;
  updated_at = 1;
  generation = 0;
}

new-job : Jobs.new 7 1 github_sync none (codes " sync") ≡ ok job
unfolding Jobs.new validate_summary credential_shaped trim len to_ascii_lowercase contains_text
new-job = refl

abbrev stored : JobTables
stored = (create_job job no_jobs).0

abbrev started : JobTables
started = (transition_job 2 7 queued running not_requested (codes "go") none stored).0

abbrev ended : JobTables
ended = (transition_job 3 7 running succeeded not_requested (codes "done") none started).0

Reach-started : Reach no_jobs started
Reach-started =
    then (then here (created 7 1 github_sync none (codes " sync") job no_jobs new-job))
      (moved 2 7 queued running not_requested (codes "go") none stored)

Reach-IsSound_example : IsSound started
Reach-IsSound_example = Reach-IsSound Reach-started

go_taken : (transition_job 2 7 queued running not_requested (codes "go") none stored).1 ≡ ok true
unfolding transition_job transition_checked transition_found transition_row find_job permits
    validate_summary credential_shaped trim len to_ascii_lowercase contains_text create_job decide
    JobState-discrete
go_taken = refl

stored-IsSound : IsSound stored
stored-IsSound =
    Reach-IsSound (then here (created 7 1 github_sync none (codes " sync") job no_jobs new-job))

transition_job-once_example :
    ((transition_job 4 7 queued failed requested (codes "no") none started).0 ≡ started)
    × ((transition_job 4 7 queued failed requested (codes "no") none started).1 ≢ ok true)
transition_job-once_example =
    transition_job-once 2 4 7 queued running failed not_requested requested (codes "go")
      (codes "no") none none stored stored-IsSound go_taken

restart_succeeds : (recover_interrupted_jobs (λ _. 5) started).1 ≡ ok tt
unfolding transition_job transition_checked transition_found transition_row find_job permits
    validate_summary credential_shaped trim len to_ascii_lowercase contains_text create_job decide
    JobState-discrete recover_interrupted_jobs recover_rows recover_row commit_or_rollback
    is_recoverable
restart_succeeds = refl

recover-none_running_example :
    All
      (λ j. (j.state ≢ running) × (j.state ≢ cancelling))
      (recover_interrupted_jobs (λ _. 5) started).0.jobs
recover-none_running_example = recover-none_running (λ _. 5) started restart_succeeds

abbrev ended_job : Job
ended_job = record job { state = succeeded; summary = codes "done"; updated_at = 3; generation = 2 }

ended_held : find_job 7 ended.jobs ≡ some ended_job
unfolding transition_job transition_checked transition_found transition_row find_job permits
    validate_summary credential_shaped trim len to_ascii_lowercase contains_text create_job decide
    JobState-discrete
ended_held = refl

ended-IsSound : IsSound ended
ended-IsSound =
    Reach-IsSound
      (then Reach-started (moved 3 7 running succeeded not_requested (codes "done") none started))

finished-stays_example :
    find_job 7 (recover_interrupted_jobs (λ _. 5) ended).0.jobs ≡ some ended_job
unfolding is_finished
finished-stays_example =
    finished-stays ended_job ended-IsSound refl ended_held (then here (restarted (λ _. 5) ended))

Reach-IsHarmless_example :
    All (λ row. IsHarmless row.summary) started.jobs
    × All (λ event. IsHarmless event.summary) started.events
Reach-IsHarmless_example = Reach-IsHarmless Reach-started
