-- ===== src/Engine/JobStore/Exclusion.antt =====
-- A transition of a job is taken once (crates/patchwright-engine/src/store.rs).
use patchwright.Prelude.{
  ℕ, ◌+◌, ◌≡◌, ◌≢◌, refl, sym, subst, inl, inr, true, false, Option, none, some, Result, ok, err,
  All, arith, Bool-cases, ◌==◌, leb, count, nat_eq, nat_beq_iff, same-eq-false,
}
use patchwright.Prelude.Text.{Text}
use patchwright.Prelude.Tables.{
  update_where, All-update_where, All-always, All-map, All-find, find_sound, implies_of_count,
}
use patchwright.Prelude.Tables.Keys.{count-le_one}
use patchwright.Engine.Jobs.{
  Job, JobState, job_state_eq, JobError, CancellationState, JobCheckpoint, permits,
  validate_summary,
}
use patchwright.Engine.JobStore.{
  JobTables, has_id, max_i64, is_current, advanced, or_else, find_job, transition_row,
  transition_found, transition_checked, transition_job,
}
use patchwright.Engine.JobStore.Soundness.{IsSound}
use patchwright.Engine.JobStore.Transitions.{current-parts}

-- Every row of the job is in the state.
abbrev AllIn : ℕ → JobState → JobTables → Type 0
AllIn id state db = All (λ j. (j.id == id) ≡ true → j.state ≡ state) db.jobs

permits-moves : (s t : JobState) → permits s t ≡ true → t ≢ s
unfolding permits
permits-moves s t h = λ e. ground arith

-- What a statement that changed one row leaves.
advanced-AllIn :
    (now id : ℕ) (expected next : JobState) (cancellation : CancellationState) (summary : Text)
    (checkpoint : Option JobCheckpoint) (generation : ℕ) (db : JobTables)
    → IsSound db
    → count (is_current id expected generation) db.jobs ≡ 1
    → All
        (λ j. (j.id == id) ≡ true → j.state ≡ next)
        (update_where
          (is_current id expected generation)
          (advanced now next cancellation summary checkpoint generation)
          db.jobs)
advanced-AllIn now id expected next cancellation summary checkpoint generation db h one =
    let test = is_current id expected generation in
    let own =
      implies_of_count test (has_id id) db.jobs
        (All-always (λ j t. (nat_beq_iff j.id id).1 (current-parts id expected generation j t).0)
          db.jobs)
        (omega (arith, one, count-le_one (λ (j : Job). j.id) id db.jobs h.unique)) in
    All-update_where _ test (advanced now next cancellation summary checkpoint generation) db.jobs
      (All-map (λ j o. (λ t i. refl, λ f i. cc (o i, f))) db.jobs own)

transition_row-taken :
    (now id : ℕ) (expected next : JobState) (cancellation : CancellationState) (summary : Text)
    (checkpoint : Option JobCheckpoint) (current : Job) (db : JobTables)
    → IsSound db
    → (transition_row now id expected next cancellation summary checkpoint current db).1 ≡ ok true
    → AllIn id next
        (transition_row now id expected next cancellation summary checkpoint current db).0
unfolding transition_row
transition_row-taken now id expected next cancellation summary checkpoint current db h won =
    elim (Bool-cases (current.state == expected)) [
      | inr other ↦ cc (rw other at won)
      | inl same ↦ elim (Bool-cases (leb (current.generation + 1) max_i64)) [
        | inr large ↦ cc (rw (same, large) at won)
        | inl fits ↦
            elim (Bool-cases (count (is_current id expected current.generation) db.jobs == 1)) [
              | inr none_or_many ↦ cc (rw (same, fits, none_or_many) at won)
              | inl one ↦
                  rw (same, fits, one)
                    (advanced-AllIn now id expected next cancellation summary
                      (or_else checkpoint current.checkpoint) current.generation db h
                      ((nat_beq_iff _ 1).0 one))
            ]
      ]
    ]

transition_found-taken :
    (now id : ℕ) (expected next : JobState) (cancellation : CancellationState) (summary : Text)
    (checkpoint : Option JobCheckpoint) (found : Option Job) (db : JobTables)
    → IsSound db
    → (transition_found now id expected next cancellation summary checkpoint found db).1 ≡ ok true
    → AllIn id next
        (transition_found now id expected next cancellation summary checkpoint found db).0
unfolding transition_found
transition_found-taken now id expected next cancellation summary checkpoint none db h won = cc
transition_found-taken now id expected next cancellation summary checkpoint (some row) db h won =
    transition_row-taken now id expected next cancellation summary checkpoint row db h won

transition_checked-taken :
    (now id : ℕ) (expected next : JobState) (cancellation : CancellationState)
    (summary : Result JobError Text) (checkpoint : Option JobCheckpoint) (db : JobTables)
    → IsSound db
    → (transition_checked now id expected next cancellation summary checkpoint db).1 ≡ ok true
    → AllIn id next (transition_checked now id expected next cancellation summary checkpoint db).0
unfolding transition_checked
transition_checked-taken now id expected next cancellation (err e) checkpoint db h won = cc
transition_checked-taken now id expected next cancellation (ok s) checkpoint db h won =
    transition_found-taken now id expected next cancellation s checkpoint (find_job id db.jobs) db h
      won

transition_job-taken :
    (now id : ℕ) (expected next : JobState) (cancellation : CancellationState) (summary : Text)
    (checkpoint : Option JobCheckpoint) (db : JobTables)
    → IsSound db
    → (transition_job now id expected next cancellation summary checkpoint db).1 ≡ ok true
    → (permits expected next ≡ true)
      × AllIn id next (transition_job now id expected next cancellation summary checkpoint db).0
unfolding transition_job
transition_job-taken now id expected next cancellation summary checkpoint db h won =
    elim (Bool-cases (permits expected next)) [
      | inl p ↦ (
        p,
        rw p (
            transition_checked-taken now id expected next cancellation (validate_summary summary)
              checkpoint db h (rw p at won)),
      )
      | inr p ↦ cc (rw p at won)
    ]

-- A job whose rows are all in another state is not moved.
transition_found-lost :
    (now id : ℕ) (expected next state : JobState) (cancellation : CancellationState)
    (summary : Text) (checkpoint : Option JobCheckpoint) (found : Option Job) (db : JobTables)
    → state ≢ expected
    → AllIn id state db
    → found ≡ find_job id db.jobs
    → transition_found now id expected next cancellation summary checkpoint found db
      ≡ (db, ok false)
unfolding transition_found transition_row find_job
transition_found-lost now id expected next state cancellation summary checkpoint none db d a e =
    refl
transition_found-lost now id expected next state cancellation summary checkpoint (some row) db d a
      e =
    let stands =
      All-find (λ j. (j.id == id) ≡ true → j.state ≡ state) (has_id id) db.jobs a (sym e)
        (find_sound (has_id id) db.jobs (sym e)) in
    rw (same-eq-false row.state expected (subst (λ s. s ≢ expected) (sym stands) d))

transition_checked-lost :
    (now id : ℕ) (expected next state : JobState) (cancellation : CancellationState)
    (summary : Result JobError Text) (checkpoint : Option JobCheckpoint) (db : JobTables)
    → state ≢ expected
    → AllIn id state db
    → ((transition_checked now id expected next cancellation summary checkpoint db).0 ≡ db)
      × ((transition_checked now id expected next cancellation summary checkpoint db).1 ≢ ok true)
unfolding transition_checked
transition_checked-lost now id expected next state cancellation (err e) checkpoint db d a =
    (refl, λ h. cc)
transition_checked-lost now id expected next state cancellation (ok s) checkpoint db d a =
    let lost =
      transition_found-lost now id expected next state cancellation s checkpoint
        (find_job id db.jobs) db d a refl in
    rw lost (refl, λ h. cc)

transition_job-lost :
    (now id : ℕ) (expected next state : JobState) (cancellation : CancellationState)
    (summary : Text) (checkpoint : Option JobCheckpoint) (db : JobTables)
    → state ≢ expected
    → AllIn id state db
    → ((transition_job now id expected next cancellation summary checkpoint db).0 ≡ db)
      × ((transition_job now id expected next cancellation summary checkpoint db).1 ≢ ok true)
unfolding transition_job
transition_job-lost now id expected next state cancellation summary checkpoint db d a =
    elim (Bool-cases (permits expected next)) [
      | inl p ↦ rw p (
          transition_checked-lost now id expected next state cancellation (validate_summary summary)
            checkpoint db d a)
      | inr p ↦ rw p (refl, λ h. cc)
    ]

-- Of two transitions of one job from the same state, one after the other, at most one is taken:
-- after the first succeeded, the second is not taken and changes nothing.
pub transition_job-once :
    (now₁ now₂ id : ℕ) (expected next₁ next₂ : JobState) (c₁ c₂ : CancellationState)
    (summary₁ summary₂ : Text) (p₁ p₂ : Option JobCheckpoint) (db : JobTables)
    → IsSound db
    → (transition_job now₁ id expected next₁ c₁ summary₁ p₁ db).1 ≡ ok true
    → let after = (transition_job now₁ id expected next₁ c₁ summary₁ p₁ db).0 in
      ((transition_job now₂ id expected next₂ c₂ summary₂ p₂ after).0 ≡ after)
      × ((transition_job now₂ id expected next₂ c₂ summary₂ p₂ after).1 ≢ ok true)
transition_job-once now₁ now₂ id expected next₁ next₂ c₁ c₂ summary₁ summary₂ p₁ p₂ db h won =
    let (allowed, moved) = transition_job-taken now₁ id expected next₁ c₁ summary₁ p₁ db h won in
    transition_job-lost now₂ id expected next₂ next₁ c₂ summary₂ p₂ _
      (permits-moves expected next₁ allowed) moved
