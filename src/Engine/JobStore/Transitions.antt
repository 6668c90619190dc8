-- ===== src/Engine/JobStore/Transitions.antt =====
-- `transition_job` only advances jobs along permitted transitions (crates/patchwright-engine/src/store.rs).
use patchwright.Prelude.{
  ℕ, ◌+◌, ◌≡◌, refl, sym, subst, inl, inr, true, ◌&&◌, Option, none, some, Result, ok, err, count,
  leb, Bool-cases, arith, ◌==◌, nat_eq, nat_beq_iff, &&-eq-true,
}
use patchwright.Prelude.Text.{Text}
use patchwright.Engine.Jobs.{
  Job, JobState, job_state_eq, JobError, CancellationState, JobCheckpoint, permits,
  validate_summary,
}
use patchwright.Engine.JobStore.{
  JobTables, max_i64, is_current, advanced, or_else, find_job, transition_row, transition_found,
  transition_checked, transition_job,
}
use patchwright.Engine.JobStore.Soundness.{Evolves, stays, advances, IsAdvance}

pub current-parts :
    (id : ℕ) (expected : JobState) (g : ℕ) (j : Job)
    → is_current id expected g j ≡ true
    → (j.id ≡ id) × (j.state ≡ expected) × (j.generation ≡ g)
current-parts id expected g j h =
    let (i, rest) = &&-eq-true (j.id == id) (j.state == expected && j.generation == g) h in
    let (s, n) = &&-eq-true (j.state == expected) (j.generation == g) rest in
    (
      (nat_beq_iff j.id id).0 i,
      (job_state_eq.same_iff j.state expected).0 s,
      (nat_beq_iff j.generation g).0 n,
    )

pub current-IsAdvance :
    (now id : ℕ) (expected next : JobState) (cancellation : CancellationState) (summary : Text)
    (checkpoint : Option JobCheckpoint) (generation : ℕ)
    → permits expected next ≡ true
    → IsAdvance
        (is_current id expected generation)
        (advanced now next cancellation summary checkpoint generation)
        (record {
          job_id = id;
          state = next;
          summary = summary;
          checkpoint = checkpoint;
          occurred_at = now;
        })
current-IsAdvance now id expected next cancellation summary checkpoint generation p = record {
  own = λ j t. (current-parts id expected generation j t).0;
  allowed = λ j t.
      subst (λ s. permits s next ≡ true) (sym (current-parts id expected generation j t).1) p;
  key_kept = λ j t. refl;
  state_set = λ j t. refl;
  generation_up = λ j t. omega (arith, (current-parts id expected generation j t).2);
}

transition_row-Evolves :
    (now id : ℕ) (expected next : JobState) (cancellation : CancellationState) (summary : Text)
    (checkpoint : Option JobCheckpoint) (current : Job) (db : JobTables)
    → permits expected next ≡ true
    → Evolves db (transition_row now id expected next cancellation summary checkpoint current db).0
unfolding transition_row
transition_row-Evolves now id expected next cancellation summary checkpoint current db p =
    elim (Bool-cases (current.state == expected)) [
      | inr other ↦ rw other stays
      | inl same ↦ elim (Bool-cases (leb (current.generation + 1) max_i64)) [
        | inr large ↦ rw (same, large) stays
        | inl fits ↦
            elim (Bool-cases (count (is_current id expected current.generation) db.jobs == 1)) [
              | inr none_or_many ↦ rw (same, fits, none_or_many) stays
              | inl one ↦
                  rw (same, fits, one)
                    (advances stays
                      (current-IsAdvance now id expected next cancellation summary
                        (or_else checkpoint current.checkpoint) current.generation p)
                      ((nat_beq_iff _ 1).0 one))
            ]
      ]
    ]

transition_found-Evolves :
    (now id : ℕ) (expected next : JobState) (cancellation : CancellationState) (summary : Text)
    (checkpoint : Option JobCheckpoint) (found : Option Job) (db : JobTables)
    → permits expected next ≡ true
    → Evolves db (transition_found now id expected next cancellation summary checkpoint found db).0
unfolding transition_found
transition_found-Evolves now id expected next cancellation summary checkpoint none db p = stays
transition_found-Evolves now id expected next cancellation summary checkpoint (some row) db p =
    transition_row-Evolves now id expected next cancellation summary checkpoint row db p

transition_checked-Evolves :
    (now id : ℕ) (expected next : JobState) (cancellation : CancellationState)
    (summary : Result JobError Text) (checkpoint : Option JobCheckpoint) (db : JobTables)
    → permits expected next ≡ true
    → Evolves db (transition_checked now id expected next cancellation summary checkpoint db).0
unfolding transition_checked
transition_checked-Evolves now id expected next cancellation (err e) checkpoint db p = stays
transition_checked-Evolves now id expected next cancellation (ok s) checkpoint db p =
    transition_found-Evolves now id expected next cancellation s checkpoint (find_job id db.jobs) db
      p

pub transition_job-Evolves :
    (now id : ℕ) (expected next : JobState) (cancellation : CancellationState) (summary : Text)
    (checkpoint : Option JobCheckpoint) (db : JobTables)
    → Evolves db (transition_job now id expected next cancellation summary checkpoint db).0
unfolding transition_job
transition_job-Evolves now id expected next cancellation summary checkpoint db =
    elim (Bool-cases (permits expected next)) [
      | inl p ↦ rw p (
          transition_checked-Evolves now id expected next cancellation (validate_summary summary)
            checkpoint db p)
      | inr p ↦ rw p stays
    ]
