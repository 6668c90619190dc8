-- ===== src/Domain/Consistency.antt =====
-- The interruption record of a task (crates/patchwright-core/src/domain.rs) and its state agree.
use patchwright.Prelude.{
  ℕ, ◌≡◌, refl, sym, ap, Bool, true, false, Option, none, some, is_empty, ok, err, arith, ◌==◌,
  Bool-cases, not, inl, inr, ◌||◌,
}
use mathlib.Core.Option.{some-injective}
use patchwright.Prelude.Text.{Text, trim}
use patchwright.Domain.{
  TaskState, ValidationError, Task, TaskInterruption, task_state_eq, is_terminal, is_interruption,
  is_recoverable_interruption, permits, resume_recorded, new, transition, interrupt, resume,
}

-- A state in which work goes on.
unfoldable pub is_active : TaskState → Bool
unfolding is_terminal is_interruption
is_active s = not (is_terminal s || is_interruption s)

-- An interrupted task records the state that it was interrupted in; another records nothing.
abbrev pub Records : TaskState → Option TaskInterruption → Type 0
Records state none = is_interruption state ≡ false
Records state (some i) =
    (is_interruption state ≡ true) × (i.state ≡ state) × (is_active i.resume_state ≡ true)

abbrev pub IsConsistent : Task → Type 0
IsConsistent task = Records task.state task.interruption

-- A new task is consistent.
pub new-IsConsistent :
    (id now : ℕ) (title path : Text) {task : Task}
    → new id now title path ≡ ok task
    → IsConsistent task
unfolding new is_interruption
new-IsConsistent id now title path {task} h = ground arith

pub permits-ends :
    (s t : TaskState)
    → permits s t ≡ true
    → (is_active s ≡ true) × (is_interruption s ≡ false) × (is_interruption t ≡ false)
unfolding permits is_active
permits-ends s t h = ground arith

pub Records-permits :
    (s t : TaskState) (o : Option TaskInterruption) → permits s t ≡ true → Records s o → Records t o
Records-permits s t none h r = (permits-ends s t h).2
Records-permits s t (some i) h r = cc (r.0, (permits-ends s t h).1)

transition-IsConsistent :
    (now : ℕ) (target : TaskState) (task : Task)
    → IsConsistent task
    → IsConsistent (transition now target task).0
unfolding transition
transition-IsConsistent now target task h = elim (Bool-cases (permits task.state target)) [
  | inl p ↦ rw p (Records-permits task.state target task.interruption p h)
  | inr p ↦ rw p h
]

interrupt-IsConsistent :
    (now : ℕ) (target : TaskState) (reason : Text) (task : Task)
    → IsConsistent task
    → IsConsistent (interrupt now target reason task).0
unfolding interrupt is_active
interrupt-IsConsistent now target reason task h = elim (Bool-cases (is_interruption target)) [
  | inl p ↦ elim (Bool-cases (is_terminal task.state || is_interruption task.state)) [
    | inl q ↦ rw (p, q) h
    | inr q ↦ elim (Bool-cases (is_empty (trim reason))) [
      | inl e ↦ rw (p, q, e) h
      | inr e ↦ rw (p, q, e) (p, refl, ground arith)
    ]
  ]
  | inr p ↦ rw p h
]

active-not-interruption : (s : TaskState) → is_active s ≡ true → is_interruption s ≡ false
unfolding is_active
active-not-interruption s h = ground arith

recorded_active :
    (s : TaskState) (o : Option TaskInterruption) {i : TaskInterruption}
    → Records s o
    → o ≡ some i
    → is_active i.resume_state ≡ true
recorded_active s none r e = cc
recorded_active s (some j) r e = cc (r.2, ap (λ x. x.resume_state) (some-injective _ _ e))

resume_recorded-IsConsistent :
    (now : ℕ) (o : Option TaskInterruption) (task : Task)
    → o ≡ task.interruption
    → IsConsistent task
    → IsConsistent (resume_recorded now o task).0
unfolding resume_recorded
resume_recorded-IsConsistent now none task e h = h
resume_recorded-IsConsistent now (some i) task e h =
    elim (Bool-cases
      (not (is_recoverable_interruption task.state) || not (i.state == task.state))) [
        | inl p ↦ rw p h
        | inr p ↦ rw p (
            active-not-interruption i.resume_state
              (recorded_active task.state task.interruption h (sym e)))
      ]

resume-IsConsistent : (now : ℕ) (task : Task) → IsConsistent task → IsConsistent (resume now task).0
unfolding resume
resume-IsConsistent now task = resume_recorded-IsConsistent now task.interruption task refl

-- Each operation keeps a task consistent, whether it succeeds or fails.
pub operations-IsConsistent :
    (now : ℕ) (target : TaskState) (reason : Text) (task : Task)
    → IsConsistent task
    → IsConsistent (transition now target task).0
      × IsConsistent (interrupt now target reason task).0
      × IsConsistent (resume now task).0
operations-IsConsistent now target reason task h = (
  transition-IsConsistent now target task h,
  interrupt-IsConsistent now target reason task h,
  resume-IsConsistent now task h,
)

-- An operation that fails leaves the task as it was.
pub failure_changes_nothing :
    (now : ℕ) (target : TaskState) (reason : Text) (task : Task) (e : ValidationError)
    → ((transition now target task).1 ≡ err e → (transition now target task).0 ≡ task)
      × ((interrupt now target reason task).1 ≡ err e → (interrupt now target reason task).0 ≡ task)
      × ((resume now task).1 ≡ err e → (resume now task).0 ≡ task)
unfolding transition interrupt resume
failure_changes_nothing now target reason task e =
    (λ h. ground arith, λ h. ground arith, λ h. ground arith)
