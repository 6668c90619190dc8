-- ===== src/Engine/JobStore/Summaries.antt =====
-- What the summaries in the tables can hold (crates/patchwright-engine/src/jobs.rs and store.rs).
use patchwright.Prelude.{
  ◌≤◌, ltb, ◌||◌, ◌>>◌, reject_if, is_empty, ◌≡◌, Bool, false, ok, All, arith, any, nat_eq,
}
use patchwright.Prelude.Text.{Text, trim, len}
use patchwright.Prelude.Tables.{All-map}
use patchwright.Engine.Jobs
use patchwright.Engine.Jobs.{
  max_summary_bytes, Job, JobKind, JobState, job_state_eq, JobError, CancellationState,
  JobCheckpoint, permits, validate_summary, is_line_break, credential_shaped,
}
use patchwright.Engine.JobStore.{JobTables}
use patchwright.Engine.JobStore.Histories.{Reach, no_jobs}
use patchwright.Engine.JobStore.Safety.{IsSafe, Reach-AreSafe}

-- Short, on one line, without blanks around it and without anything that looks like a credential.
pub record IsHarmless (summary : Text) : Type 0 where
  pub filled : is_empty summary ≡ false
  pub short : len summary ≤ 256
  pub one_line : any summary is_line_break ≡ false
  pub no_credential : credential_shaped summary ≡ false
  pub trimmed : trim summary ≡ summary

guards :
    (a b c d : Bool) (reason : JobError) {text summary : Text}
    → (reject_if (a || b || c || d) reason >> ok text) ≡ ok summary
    → (a ≡ false) × (b ≡ false) × (c ≡ false) × (d ≡ false) × (text ≡ summary)
guards a b c d reason h = ground arith

IsSafe-IsHarmless : (summary : Text) → IsSafe summary → IsHarmless summary
unfolding validate_summary
IsSafe-IsHarmless summary e =
    let text = trim summary in
    let (filled, short, one_line, clean, trimmed) =
      guards (is_empty text) (ltb max_summary_bytes (len text)) (any text is_line_break)
        (credential_shaped text) (Jobs.invalid_metadata "summary") e in
    record {
      filled = rw (← trimmed) filled;
      short = rw (← trimmed) (ground (arith, short));
      one_line = rw (← trimmed) one_line;
      no_credential = rw (← trimmed) clean;
      trimmed = trimmed;
    }

-- Whatever operations run on empty tables, the summary of every job and of every event is filled,
-- at most 256 bytes long, on one line, trimmed, and free of the markers of a credential.
pub Reach-IsHarmless :
    {db : JobTables}
    → Reach no_jobs db
    → All (λ job. IsHarmless job.summary) db.jobs
      × All (λ event. IsHarmless event.summary) db.events
Reach-IsHarmless {db} history =
    let safe = Reach-AreSafe history in
    (
      All-map (λ job h. IsSafe-IsHarmless job.summary h) db.jobs safe.jobs,
      All-map (λ event h. IsSafe-IsHarmless event.summary h) db.events safe.events,
    )
