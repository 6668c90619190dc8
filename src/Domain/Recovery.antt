-- ===== src/Domain/Recovery.antt =====
-- Interrupting and resuming a task, and the end of its life
-- (crates/patchwright-core/src/domain.rs).
use patchwright.Prelude.{
  ℕ, ◌≡◌, refl, Option, none, some, true, false, is_empty, List, [], ◌∷◌, ok, arith, same_refl,
}
use patchwright.Prelude.Text.{Text, trim}
use patchwright.Domain.{
  TaskState, Task, TaskInterruption, resume_recorded, permits, is_interruption, task_state_eq,
  is_terminal, is_recoverable_interruption, transition, interrupt, resume,
}
use patchwright.Domain.Consistency.{Records, IsConsistent, is_active}
use patchwright.Domain.Lifecycle.{Call, transition_to, interrupt_with, resume_it, call, run}

interrupt_active :
    (now : ℕ) (target : TaskState) (reason : Text) (task : Task)
    → is_active task.state ≡ true
    → is_interruption target ≡ true
    → is_empty (trim reason) ≡ false
    → interrupt now target reason task ≡ (
      record task {
        state = target;
        interruption =
            some (record { state = target; resume_state = task.state; reason = trim reason });
        updated_at = now;
      },
      ok tt,
    )
unfolding interrupt is_active
interrupt_active now target reason task active stops given = ground arith

Records-active :
    (s : TaskState) (o : Option TaskInterruption) → is_active s ≡ true → Records s o → o ≡ none
unfolding is_active
Records-active s none a r = refl
Records-active s (some i) a r = ground arith

recoverable-interruption :
    (s : TaskState) → is_recoverable_interruption s ≡ true → is_interruption s ≡ true
unfolding is_recoverable_interruption is_interruption
recoverable-interruption s h = ground arith

-- Pausing or blocking an active consistent task with a reason succeeds, and resuming it then
-- succeeds and gives back the task, only with the new time of update.
pub resume-interrupt :
    (t₁ t₂ : ℕ) (target : TaskState) (reason : Text) (task : Task)
    → IsConsistent task
    → is_active task.state ≡ true
    → is_recoverable_interruption target ≡ true
    → is_empty (trim reason) ≡ false
    → ((interrupt t₁ target reason task).1 ≡ ok tt)
      × (resume t₂ (interrupt t₁ target reason task).0 ≡ (record task { updated_at = t₂ }, ok tt))
resume-interrupt t₁ t₂ target reason task h active recoverable given =
    let stops = recoverable-interruption target recoverable in
    let none_before = Records-active task.state task.interruption active h in
    rw (interrupt_active t₁ target reason task active stops given)
      (refl, unfold resume in rw (recoverable, same_refl target, none_before))

terminal-ends :
    (s next : TaskState)
    → is_terminal s ≡ true
    → (permits s next ≡ false) × (is_recoverable_interruption s ≡ false)
unfolding is_terminal permits is_recoverable_interruption
terminal-ends s next h = ground arith

resume_recorded-terminal :
    (now : ℕ) (o : Option TaskInterruption) (task : Task)
    → is_terminal task.state ≡ true
    → (resume_recorded now o task).0 ≡ task
unfolding resume_recorded
resume_recorded-terminal now none task t = refl
resume_recorded-terminal now (some i) task t = rw ((terminal-ends task.state task.state t).1)

call-terminal : (c : Call) (task : Task) → is_terminal task.state ≡ true → call c task ≡ task
unfolding call transition interrupt resume
call-terminal (transition_to now next) task t = ground (arith, (terminal-ends task.state next t).0)
call-terminal (interrupt_with now state reason) task t = ground arith
call-terminal (resume_it now) task t = resume_recorded-terminal now task.interruption task t

-- A task in a terminal state never changes again, whatever is called on it.
pub run-terminal :
    (cs : List Call) (task : Task) → is_terminal task.state ≡ true → run cs task ≡ task
unfolding run
run-terminal [] task t = refl
run-terminal (c ∷ cs) task t = rw (call-terminal c task t) (run-terminal cs task t)
