-- ===== src/Domain/Milestones.antt =====
-- What the history of a task must have passed through (crates/patchwright-core/src/domain.rs).
use native.Mathlib.Decide.{dec_lt}
use patchwright.Prelude.{
  ℕ, ◌+◌, ◌≤◌, ◌<◌, ◌≡◌, ◌≢◌, subst, sym, ◌∙◌, ◌⊎◌, inl, inr, true, List, [], ◌∷◌, ok, arith,
}
use patchwright.Prelude.Text.{Text}
use patchwright.Domain.{
  TaskState, discovered, assessing, planned, awaiting_preparation_approval, preparing, implementing,
  verifying, reviewing, awaiting_delivery_approval, delivering, monitoring, awaiting_merge_approval,
  merging, Task, TaskState-discrete, task_state_eq, permits, new,
}
use patchwright.Domain.Consistency.{IsConsistent, new-IsConsistent}
use patchwright.Domain.Lifecycle.{
  Call, call, run, visits, progress, Moves, call-Moves, call-IsConsistent,
}

-- The place of an active state on the road to delivery; the merge loop lies beyond it.
abbrev pub stage : TaskState → ℕ
stage discovered = 0
stage assessing = 1
stage planned = 2
stage awaiting_preparation_approval = 3
stage preparing = 4
stage implementing = 5
stage verifying = 6
stage reviewing = 7
stage awaiting_delivery_approval = 8
stage delivering = 9
stage monitoring = 10
stage _ = 11

permits-stage : (s t : TaskState) → permits s t ≡ true → stage s ≤ 9 → stage t ≤ stage s + 1
unfolding permits
permits-stage s t p h = ground arith

stage_injective : (s t : TaskState) → stage s ≡ stage t → stage s ≤ 10 → s ≡ t
stage_injective s t e h = ground arith

visits-head :
    (g : TaskState) (cs : List Call) (task : Task) → task.state ≡ g → visits g cs task ≡ true
unfolding visits
visits-head g [] task e = (task_state_eq.same_iff task.state g).1 e
visits-head g (c ∷ cs) task e = ground (arith, (task_state_eq.same_iff task.state g).1 e)

visits-later :
    (g : TaskState) (c : Call) (cs : List Call) (task : Task)
    → visits g cs (call c task) ≡ true
    → visits g (c ∷ cs) task ≡ true
unfolding visits
visits-later g c cs task h = ground arith

-- A move towards stage `g` either stays below it or enters it.
Moves-stage :
    (g : TaskState) (before after : Task)
    → Moves before after
    → stage (progress before) < stage g
    → stage g ≤ 10
    → (stage (progress after) < stage g) ⊎ (after.state ≡ g)
unfolding Moves
Moves-stage g before after (inl e) below limit = inl (rw e below)
Moves-stage g before after (inr (p, e)) below limit =
    let near = permits-stage (progress before) (progress after) p (omega arith) in
    elim (dec_lt (stage (progress after)) (stage g)) [
      | yes lt ↦ inl lt
      | no ge ↦ inr (e ∙ stage_injective (progress after) g (omega arith) (omega arith))
    ]

run-visits :
    (g : TaskState) (cs : List Call) (task : Task)
    → IsConsistent task
    → stage (progress task) < stage g
    → stage g ≤ 10
    → stage g ≤ stage (progress (run cs task))
    → visits g cs task ≡ true
unfolding run
run-visits g [] task h below limit reached = absurd (omega arith)
run-visits g (c ∷ cs) task h below limit reached =
    visits-later g c cs task
      (elim (Moves-stage g task (call c task) (call-Moves c task h) below limit) [
        | inl still ↦ run-visits g cs (call c task) (call-IsConsistent c task h) still limit reached
        | inr here ↦ visits-head g cs (call c task) here
      ])

new-progress :
    (id now : ℕ) (title path : Text) {task : Task}
    → new id now title path ≡ ok task
    → (task.state ≡ discovered) × (progress task ≡ discovered)
unfolding new
new-progress id now title path h = ground arith

-- However a new task is driven, once its work stands at or beyond a stage on the road to
-- monitoring, the task has stood in that stage: no approval state can be skipped on the way to
-- delivery.
pub run-visits_every_stage :
    (id now : ℕ) (title path : Text) (task : Task) (cs : List Call) (g : TaskState)
    → new id now title path ≡ ok task
    → stage g ≤ 10
    → stage g ≤ stage (progress (run cs task))
    → visits g cs task ≡ true
run-visits_every_stage id now title path task cs g h limit reached =
    let start = new-progress id now title path h in
    elim (dec_lt 0 (stage g)) [
      | yes later ↦
          run-visits g cs task (new-IsConsistent id now title path h) (rw start.1 later) limit
            reached
      | no first ↦
          visits-head g cs task (start.0 ∙ stage_injective discovered g (omega arith) (omega arith))
    ]

permits-merging : (s : TaskState) → permits s merging ≡ true → s ≡ awaiting_merge_approval
unfolding permits
permits-merging s h = ground arith

-- A move of work that neither awaits merge approval nor merges.
Moves-merging :
    (before after : Task)
    → Moves before after
    → progress before ≢ merging
    → progress before ≢ awaiting_merge_approval
    → (progress after ≢ merging) × (progress after ≢ awaiting_merge_approval)
      ⊎ (after.state ≡ awaiting_merge_approval)
unfolding Moves
Moves-merging before after (inl e) outside unasked =
    inl (λ p. outside (sym e ∙ p), λ p. unasked (sym e ∙ p))
Moves-merging before after (inr (p, e)) outside unasked =
    elim (TaskState-discrete (progress after) awaiting_merge_approval) [
      | yes asks ↦ inr (e ∙ asks)
      | no other ↦ inl (
        λ m. unasked (
            permits-merging (progress before)
              (subst (λ s. permits (progress before) s ≡ true) m p)),
        other,
      )
    ]

run-merging :
    (cs : List Call) (task : Task)
    → IsConsistent task
    → progress task ≢ merging
    → progress task ≢ awaiting_merge_approval
    → progress (run cs task) ≡ merging
    → visits awaiting_merge_approval cs task ≡ true
unfolding run
run-merging [] task h outside unasked reached = absurd (outside reached)
run-merging (c ∷ cs) task h outside unasked reached =
    visits-later awaiting_merge_approval c cs task
      (elim (Moves-merging task (call c task) (call-Moves c task h) outside unasked) [
        | inl (still, waits) ↦
            run-merging cs (call c task) (call-IsConsistent c task h) still waits reached
        | inr here ↦ visits-head awaiting_merge_approval cs (call c task) here
      ])

-- However a new task is driven, if its work is merging then it has awaited merge approval.
pub run-merging_needs_approval :
    (id now : ℕ) (title path : Text) (task : Task) (cs : List Call)
    → new id now title path ≡ ok task
    → progress (run cs task) ≡ merging
    → visits awaiting_merge_approval cs task ≡ true
run-merging_needs_approval id now title path task cs h reached =
    let start = (new-progress id now title path h).1 in
    run-merging cs task (new-IsConsistent id now title path h) (λ e. cc (start, e))
      (λ e. cc (start, e)) reached
