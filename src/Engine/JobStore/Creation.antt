-- ===== src/Engine/JobStore/Creation.antt =====
-- `create_job` keeps the job tables sound (crates/patchwright-engine/src/store.rs).
use patchwright.Prelude.{
  ℕ, ◌≤◌, ◌≡◌, refl, sym, ap, subst, inl, inr, false, [], ◌∷◌, ◌++◌, All, count, any, leb,
  Bool-cases, arith, ◌==◌, nat_eq, nat_beq_iff, same_refl, length, count-append,
}
use patchwright.Prelude.Tables.{
  All-map, All-append, All-of_any-false, count-of_All-false, retain-of_All-false, retain-append,
  All-zip,
}
use patchwright.Prelude.Tables.Keys.{HasUniqueKeys-append, keys_differ}
use patchwright.Engine.Jobs.{Job, job_state_eq}
use patchwright.Engine.JobStore.{JobEvent, JobTables, has_id, max_i64, create_job}
use patchwright.Engine.JobStore.Soundness.{about, history, EndsIn, IsLogged, IsSound, kept-IsLogged}

-- No event speaks of a job that has no row.
no_history :
    (db : JobTables) (id : ℕ)
    → IsSound db
    → count (has_id id) db.jobs ≡ 0
    → All (λ e. about id e ≡ false) db.events
no_history db id h c =
    All-map
      (λ e o. elim (Bool-cases (about id e)) [
        | inl mine ↦ absurd (
            omega (
              arith,
              subst (λ i. 1 ≤ count (has_id i) db.jobs) ((nat_beq_iff e.job_id id).0 mine) o,
              c,
            ))
        | inr other ↦ other
      ])
      db.events h.owned

abbrev creation_event : Job → JobEvent
creation_event job = record {
  job_id = job.id;
  state = job.state;
  summary = job.summary;
  checkpoint = job.checkpoint;
  occurred_at = job.created_at;
}

created-IsLogged :
    (db : JobTables) (job : Job)
    → IsSound db
    → count (has_id job.id) db.jobs ≡ 0
    → job.generation ≡ 0
    → IsLogged (db.events ++ creation_event job ∷ []) job
created-IsLogged db job h c g =
    let alone : history job.id (db.events ++ creation_event job ∷ []) ≡ creation_event job ∷ [] =
      rw (
        retain-append (about job.id) db.events (creation_event job ∷ []),
        retain-of_All-false (about job.id) db.events (no_history db job.id h c),
        same_refl job.id,
      ) in
    record {
      path = subst (EndsIn job.state) (sym alone) refl;
      counted = omega (arith, ap length alone, g);
    }

-- A row whose key differs from the new one.
other_key : (job j : Job) → (j.id == job.id) ≡ false → (job.id == j.id) ≡ false
other_key job j h = keys_differ (λ (i : ℕ). i) j.id job.id h

count_self : (job : Job) → count (has_id job.id) (job ∷ []) ≡ 1
count_self job = rw (same_refl job.id)

created-IsSound :
    (job : Job) (db : JobTables)
    → job.generation ≡ 0
    → any db.jobs (has_id job.id) ≡ false
    → IsSound db
    → IsSound (record { jobs = db.jobs ++ job ∷ []; events = db.events ++ creation_event job ∷ [] })
created-IsSound job db g fresh h =
    let others = All-of_any-false (has_id job.id) db.jobs fresh in
    let absent = count-of_All-false (has_id job.id) db.jobs others in
    record {
      unique = HasUniqueKeys-append (λ (j : Job). j.id) db.jobs job h.unique absent;
      logged =
          All-append _ db.jobs (job ∷ [])
            (All-zip (λ j l o. kept-IsLogged (creation_event job) db.events j (other_key job j o) l)
              db.jobs h.logged others)
            (created-IsLogged db job h absent g, tt);
      owned =
          All-append _ db.events (creation_event job ∷ [])
            (All-map (λ e o. omega (arith, o, count-append (has_id e.job_id) db.jobs (job ∷ [])))
              db.events h.owned)
            (omega (arith, count-append (has_id job.id) db.jobs (job ∷ []), count_self job), tt);
    }

pub create_job-IsSound :
    (job : Job) (db : JobTables) → job.generation ≡ 0 → IsSound db → IsSound (create_job job db).0
unfolding create_job
create_job-IsSound job db g h = elim (Bool-cases (any db.jobs (has_id job.id))) [
  | inl taken ↦ rw taken h
  | inr fresh ↦ elim (Bool-cases (leb job.generation max_i64)) [
    | inl fits ↦ rw (fresh, fits) (created-IsSound job db g fresh h)
    | inr large ↦ rw (fresh, large) h
  ]
]
