-- ===== src/Domain.antt =====
-- crates/patchwright-core/src/domain.rs: the task and its lifecycle. A method on `&mut self`
-- returns the task that it leaves behind with its result. `now` stands for `Utc::now()`, `id` for
-- a fresh UUID. Times are nanoseconds from a fixed origin.
pub mod Consistency
pub mod Lifecycle
pub mod Milestones
pub mod Recovery
mod Tests
use patchwright.Prelude.{
  ℕ, Bool, true, false, not, ◌&&◌, ◌||◌, Option, none, some, is_empty, if◌then◌else◌, Result, ok,
  err, ◌==◌, Eq, discrete_eq, ◌>>=◌, ◌>>◌, reject_if,
}
use patchwright.Prelude.Text.{Text, trim}
use patchwright.Contract.Fields.{is_absolute}
use patchwright.Contract.Source.{TaskSource, local_request}

pub data TaskState : Type 0 where
  discovered assessing planned awaiting_preparation_approval preparing implementing verifying :
      TaskState
  reviewing awaiting_delivery_approval delivering monitoring awaiting_merge_approval : TaskState
  merging paused blocked completed failed cancelled : TaskState

unfoldable pub TaskState-discrete : Discrete TaskState
TaskState-discrete = hlevel

instance abbrev pub task_state_eq : Eq TaskState
task_state_eq = discrete_eq TaskState-discrete

-- `TaskState::permits`.
unfoldable pub permits : TaskState → TaskState → Bool
permits discovered assessing = true
permits assessing planned = true
permits planned awaiting_preparation_approval = true
permits awaiting_preparation_approval preparing = true
permits preparing implementing = true
permits implementing verifying = true
permits verifying reviewing = true
permits reviewing awaiting_delivery_approval = true
permits awaiting_delivery_approval delivering = true
permits delivering monitoring = true
permits monitoring completed = true
permits monitoring awaiting_merge_approval = true
permits merging completed = true
permits merging awaiting_merge_approval = true
permits awaiting_merge_approval merging = true
permits _ _ = false

unfoldable pub is_terminal : TaskState → Bool
is_terminal completed = true
is_terminal failed = true
is_terminal cancelled = true
is_terminal _ = false

unfoldable pub is_interruption : TaskState → Bool
is_interruption paused = true
is_interruption blocked = true
is_interruption failed = true
is_interruption cancelled = true
is_interruption _ = false

unfoldable pub is_recoverable_interruption : TaskState → Bool
is_recoverable_interruption paused = true
is_recoverable_interruption blocked = true
is_recoverable_interruption _ = false

pub data ValidationError : Type 0 where
  empty_title : ValidationError
  relative_repository : ValidationError
  invalid_transition : TaskState → TaskState → ValidationError
  empty_interruption_reason : ValidationError
  invalid_interruption_state : TaskState → ValidationError

pub record TaskInterruption : Type 0 where
  pub state : TaskState
  pub resume_state : TaskState
  pub reason : Text

pub record Task : Type 0 where
  pub id : ℕ
  pub title : Text
  pub repository_path : Text
  pub state : TaskState
  pub created_at : ℕ
  pub updated_at : ℕ
  pub interruption : Option TaskInterruption
  pub source : TaskSource
  pub repository_binding_id : Option ℕ
  pub contract_version : ℕ
  pub checkpoint_id : Option ℕ

abbrev pub default_contract_version : ℕ
default_contract_version = 1

-- `Task::new`.
unfoldable pub new : ℕ → ℕ → Text → Text → Result ValidationError Task
new id now title repository_path = do
  reject_if (is_empty (trim title)) empty_title
  reject_if (not (is_absolute repository_path)) relative_repository
  ok (record {
    id = id;
    title = trim title;
    repository_path = repository_path;
    state = discovered;
    created_at = now;
    updated_at = now;
    interruption = none;
    source = local_request;
    repository_binding_id = none;
    contract_version = default_contract_version;
    checkpoint_id = none;
  })

unfoldable pub transition : ℕ → TaskState → Task → Task × Result ValidationError Unit
unfolding permits
transition now next task =
    if permits task.state next
    then (record task { state = next; updated_at = now }, ok tt)
    else (task, err (invalid_transition task.state next))

unfoldable pub interrupt : ℕ → TaskState → Text → Task → Task × Result ValidationError Unit
unfolding is_interruption is_terminal
interrupt now interruption_state reason task =
    if not (is_interruption interruption_state)
    then (task, err (invalid_interruption_state interruption_state))
    else if is_terminal task.state || is_interruption task.state
    then (task, err (invalid_transition task.state interruption_state))
    else if is_empty (trim reason)
    then (task, err empty_interruption_reason)
    else (
      record task {
        state = interruption_state;
        interruption = some (record {
          state = interruption_state;
          resume_state = task.state;
          reason = trim reason;
        });
        updated_at = now;
      },
      ok tt,
    )

-- `Task::resume`, by the recorded interruption.
resume_recorded : ℕ → Option TaskInterruption → Task → Task × Result ValidationError Unit
unfolding is_recoverable_interruption
resume_recorded now none task = (task, err (invalid_transition task.state task.state))
resume_recorded now (some interruption) task =
    if not (is_recoverable_interruption task.state) || not (interruption.state == task.state)
    then (task, err (invalid_transition task.state interruption.resume_state))
    else (
      record task { state = interruption.resume_state; interruption = none; updated_at = now },
      ok tt,
    )

unfoldable pub resume : ℕ → Task → Task × Result ValidationError Unit
unfolding resume_recorded
resume now task = resume_recorded now task.interruption task
