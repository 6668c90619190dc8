-- ===== src/Engine/JobStore/Soundness.antt =====
-- The event log of a job tells its life (crates/patchwright-engine/src/store.rs): it is a permitted
-- path that ends in the state of the job's row, and the generation counts its steps.
use patchwright.Prelude.{
  ℕ, ◌+◌, ◌≤◌, ◌≡◌, sym, ◌∙◌, ap, subst, inl, inr, Bool, true, false, List, [], ◌∷◌, ◌++◌, All,
  count, retain, length, Bool-cases, arith, ◌==◌, nat_eq, nat_beq_iff, length-append,
}
use mathlib.Core.List.{append-nil}
use patchwright.Prelude.Tables.{
  update_where, All-map, All-zip, All-append, All-always, All-update_where, implies_of_count,
  count-le_of_implies, retain-append,
}
use patchwright.Prelude.Tables.Keys.{
  HasUniqueKeys, HasUniqueKeys-update_where, count-le_one, count-update_where, keys_differ,
}
use patchwright.Engine.Jobs.{Job, JobState, permits}
use patchwright.Engine.JobStore.{JobEvent, JobTables, has_id}

abbrev pub about : ℕ → JobEvent → Bool
about id event = event.job_id == id

-- The events of one job, oldest first.
abbrev pub history : ℕ → List JobEvent → List JobEvent
history id events = retain (about id) events

-- A log that follows permitted transitions and ends in the state.
abbrev pub EndsIn : JobState → List JobEvent → Type 0
EndsIn state [] = ⊥
EndsIn state (e ∷ []) = e.state ≡ state
EndsIn state (e ∷ f ∷ es) = (permits e.state f.state ≡ true) × EndsIn state (f ∷ es)

pub record IsLogged (events : List JobEvent) (job : Job) : Type 0 where
  pub path : EndsIn job.state (history job.id events)
  pub counted : length (history job.id events) ≡ job.generation + 1

pub record IsSound (db : JobTables) : Type 0 where
  pub unique : HasUniqueKeys (λ (j : Job). j.id) db.jobs
  pub logged : All (IsLogged db.events) db.jobs
  pub owned : All (λ (e : JobEvent). 1 ≤ count (has_id e.job_id) db.jobs) db.events

EndsIn-step :
    (s t : JobState) (es : List JobEvent) (e : JobEvent)
    → EndsIn s es
    → permits s t ≡ true
    → e.state ≡ t
    → EndsIn t (es ++ e ∷ [])
EndsIn-step s t [] e h p q = absurd h
EndsIn-step s t (d ∷ []) e h p q = (rw (h, q) p, q)
EndsIn-step s t (d ∷ f ∷ es) e h p q = (h.0, EndsIn-step s t (f ∷ es) e h.1 p q)

history-append_self :
    (id : ℕ) (events : List JobEvent) (e : JobEvent)
    → e.job_id ≡ id
    → history id (events ++ e ∷ []) ≡ history id events ++ e ∷ []
history-append_self id events e h =
    retain-append (about id) events (e ∷ []) ∙ rw ((nat_beq_iff e.job_id id).1 h)

history-append_other :
    (id : ℕ) (events : List JobEvent) (e : JobEvent)
    → (e.job_id == id) ≡ false
    → history id (events ++ e ∷ []) ≡ history id events ++ []
history-append_other id events e h = retain-append (about id) events (e ∷ []) ∙ rw h

pub kept-IsLogged :
    (e : JobEvent) (events : List JobEvent) (j : Job)
    → (e.job_id == j.id) ≡ false
    → IsLogged events j
    → IsLogged (events ++ e ∷ []) j
kept-IsLogged e events j t h =
    let same = history-append_other j.id events e t ∙ append-nil _ in
    record { path = subst (EndsIn j.state) (sym same) h.path; counted = ap length same ∙ h.counted }

-- A statement that moves the one row of a job along a permitted transition.
pub record IsAdvance (test : Job → Bool) (change : Job → Job) (e : JobEvent) : Type 0 where
  pub own : (j : Job) → test j ≡ true → j.id ≡ e.job_id
  pub allowed : (j : Job) → test j ≡ true → permits j.state e.state ≡ true
  pub key_kept : (j : Job) → test j ≡ true → (change j).id ≡ j.id
  pub state_set : (j : Job) → test j ≡ true → (change j).state ≡ e.state
  pub generation_up : (j : Job) → test j ≡ true → (change j).generation ≡ j.generation + 1

module _ {test : Job → Bool} {change : Job → Job} {e : JobEvent}
    (adv : IsAdvance test change e) where
  changed-IsLogged :
      (events : List JobEvent) (j : Job)
      → test j ≡ true
      → IsLogged events j
      → IsLogged (events ++ e ∷ []) (change j)
  changed-IsLogged events j t h =
      let longer =
        ap (λ i. history i (events ++ e ∷ [])) (adv.key_kept j t)
        ∙ history-append_self j.id events e (sym (adv.own j t)) in
      let step =
        subst (λ s. permits j.state s ≡ true) (sym (adv.state_set j t)) (adv.allowed j t) in
      record {
        path = subst (EndsIn (change j).state) (sym longer) (
            EndsIn-step j.state (change j).state (history j.id events) e h.path step
              (sym (adv.state_set j t)));
        counted = omega (
          arith,
          ap length longer,
          length-append (history j.id events) (e ∷ []),
          h.counted,
          adv.generation_up j t,
        );
      }

  -- Exactly the row of the event's job passes the test.
  own_row :
      (db : JobTables)
      → IsSound db
      → count test db.jobs ≡ 1
      → All (λ j. (j.id == e.job_id) ≡ true → test j ≡ true) db.jobs
  own_row db h c =
      implies_of_count test (has_id e.job_id) db.jobs
        (All-always (λ j t. (nat_beq_iff j.id e.job_id).1 (adv.own j t)) db.jobs)
        (omega (arith, c, count-le_one (λ (j : Job). j.id) e.job_id db.jobs h.unique))

  row-IsLogged :
      (events : List JobEvent) (j : Job)
      → IsLogged events j
      → ((j.id == e.job_id) ≡ true → test j ≡ true)
      → (test j ≡ true → IsLogged (events ++ e ∷ []) (change j))
        × (test j ≡ false → IsLogged (events ++ e ∷ []) j)
  row-IsLogged events j h own = (
    λ t. changed-IsLogged events j t h,
    λ f.
        kept-IsLogged e events j
          (keys_differ (λ (i : ℕ). i) j.id e.job_id
            (elim (Bool-cases (j.id == e.job_id)) [
              | inl same ↦ cc (own same, f)
              | inr other ↦ other
            ]))
          h,
  )

  -- Such a statement, with its event, keeps the tables sound.
  pub advance-IsSound :
      (db : JobTables)
      → IsSound db
      → count test db.jobs ≡ 1
      → IsSound (record { jobs = update_where test change db.jobs; events = db.events ++ e ∷ [] })
  advance-IsSound db h c =
      let keep =
        λ (id : ℕ). count-update_where (λ (j : Job). j.id) id test change adv.key_kept db.jobs in
      let here =
        count-le_of_implies test (has_id e.job_id) db.jobs
          (All-always (λ j t. (nat_beq_iff j.id e.job_id).1 (adv.own j t)) db.jobs) in
      record {
        unique =
            HasUniqueKeys-update_where (λ (j : Job). j.id) test change adv.key_kept db.jobs
              h.unique;
        logged =
            All-update_where (IsLogged (db.events ++ e ∷ [])) test change db.jobs
              (All-zip (row-IsLogged db.events) db.jobs h.logged (own_row db h c));
        owned =
            All-append _ db.events (e ∷ [])
              (All-map (λ d o. rw (keep d.job_id) o) db.events h.owned)
              (rw (keep e.job_id) (omega (arith, here, c)), tt);
      }

-- The tables after any number of such statements.
pub data Evolves (db : JobTables) : JobTables → Type 0 where
  stays : Evolves db db
  advances :
      {mid : JobTables} {test : Job → Bool} {change : Job → Job} {e : JobEvent}
      → Evolves db mid
      → IsAdvance test change e
      → count test mid.jobs ≡ 1
      → Evolves db
          (record { jobs = update_where test change mid.jobs; events = mid.events ++ e ∷ [] })

pub Evolves-IsSound : {db after : JobTables} → Evolves db after → IsSound db → IsSound after
Evolves-IsSound stays h = h
Evolves-IsSound (advances {mid = mid} before adv one) h =
    advance-IsSound adv mid (Evolves-IsSound before h) one
