-- ===== src/Domain/Lifecycle.antt =====
-- Histories of a task: what `Task::new` followed by any calls of `transition`, `interrupt` and
-- `resume` can reach (crates/patchwright-core/src/domain.rs).
use patchwright.Prelude.{
  ℕ, ◌≡◌, refl, Bool, true, false, ◌||◌, Option, none, some, List, [], ◌∷◌, arith, ◌==◌, ◌⊎◌, inl,
  inr, Bool-cases, sym,
}
use patchwright.Prelude.Text.{Text}
use patchwright.Domain.{
  TaskState, discovered, Task, TaskInterruption, task_state_eq, is_interruption, permits,
  resume_recorded, transition, interrupt, resume,
}
use patchwright.Domain.Consistency.{
  Records, permits-ends, Records-permits, IsConsistent, operations-IsConsistent,
}

-- A call on a task, with the time at which it is made.
pub data Call : Type 0 where
  transition_to : ℕ → TaskState → Call
  interrupt_with : ℕ → TaskState → Text → Call
  resume_it : ℕ → Call

unfoldable pub call : Call → Task → Task
call (transition_to now next) task = (transition now next task).0
call (interrupt_with now state reason) task = (interrupt now state reason task).0
call (resume_it now) task = (resume now task).0

unfoldable pub run : List Call → Task → Task
run [] task = task
run (c ∷ cs) task = run cs (call c task)

-- Whether the task stands in the state at some point of the history, its ends included.
unfoldable pub visits : TaskState → List Call → Task → Bool
visits s [] task = task.state == s
visits s (c ∷ cs) task = task.state == s || visits s cs (call c task)

-- The state in which work stands or, for an interrupted task, in which it stood.
abbrev pub underlying : TaskState → Option TaskInterruption → TaskState
underlying state none = state
underlying state (some i) = i.resume_state

abbrev pub progress : Task → TaskState
progress task = underlying task.state task.interruption

pub call-IsConsistent : (c : Call) (task : Task) → IsConsistent task → IsConsistent (call c task)
unfolding call
call-IsConsistent (transition_to now next) task h = (operations-IsConsistent now next [] task h).0
call-IsConsistent (interrupt_with now state reason) task h =
    (operations-IsConsistent now state reason task h).1
call-IsConsistent (resume_it now) task h = (operations-IsConsistent now discovered [] task h).2

-- One call leaves the progress alone, or moves it along a permitted edge into the state it enters.
unfoldable pub Moves : Task → Task → Type 0
Moves before after =
    (progress after ≡ progress before)
    ⊎ ((permits (progress before) (progress after) ≡ true) × (after.state ≡ progress after))

underlying-not_interruption :
    (s : TaskState) (o : Option TaskInterruption)
    → is_interruption s ≡ false
    → Records s o
    → underlying s o ≡ s
underlying-not_interruption s none p h = refl
underlying-not_interruption s (some i) p h = cc h.0

transition-Moves :
    (now : ℕ) (next : TaskState) (task : Task)
    → IsConsistent task
    → Moves task (transition now next task).0
unfolding Moves transition
transition-Moves now next task h = elim (Bool-cases (permits task.state next)) [
  | inl p ↦
      let (_, a, b) = permits-ends task.state next p in
      let after = Records-permits task.state next task.interruption p h in
      let from = underlying-not_interruption task.state task.interruption a h in
      let to = underlying-not_interruption next task.interruption b after in
      rw p (inr (rw (from, to) p, sym to))
  | inr p ↦ rw p (inl refl)
]

interrupt-progress :
    (now : ℕ) (target : TaskState) (reason : Text) (task : Task)
    → IsConsistent task
    → progress (interrupt now target reason task).0 ≡ progress task
unfolding interrupt
interrupt-progress now target reason task h = elim (Bool-cases (is_interruption task.state)) [
  | inl p ↦ ground arith
  | inr p ↦ ground (arith, underlying-not_interruption task.state task.interruption p h)
]

resume_recorded-progress :
    (now : ℕ) (o : Option TaskInterruption) (task : Task)
    → o ≡ task.interruption
    → progress (resume_recorded now o task).0 ≡ underlying task.state o
unfolding resume_recorded
resume_recorded-progress now none task e = rw (← e)
resume_recorded-progress now (some i) task e = ground arith

resume-progress : (now : ℕ) (task : Task) → progress (resume now task).0 ≡ progress task
unfolding resume
resume-progress now task = resume_recorded-progress now task.interruption task refl

pub call-Moves : (c : Call) (task : Task) → IsConsistent task → Moves task (call c task)
unfolding call Moves
call-Moves (transition_to now next) task h = transition-Moves now next task h
call-Moves (interrupt_with now state reason) task h =
    inl (interrupt-progress now state reason task h)
call-Moves (resume_it now) task h = inl (resume-progress now task)
