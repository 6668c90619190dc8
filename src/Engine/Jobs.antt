-- ===== src/Engine/Jobs.antt =====
-- crates/patchwright-engine/src/jobs.rs: durable jobs. `now` stands for `Utc::now()`, `id` for a
-- fresh UUID.
use Prim.Native.String.{String}
use patchwright.Prelude.{
  ℕ, Bool, true, false, ◌||◌, Option, none, List, [], ◌∷◌, Result, ok, ◌>>=◌, ◌>>◌, reject_if, any,
  is_empty, ltb, ◌==◌, nat_eq, Eq, discrete_eq,
}
use patchwright.Prelude.Text.{Text, codes, trim, len, to_ascii_lowercase, contains_text, is_control}

abbrev pub max_summary_bytes : ℕ
max_summary_bytes = 256

pub data JobKind : Type 0 where
  github_sync task_execution github_delivery merge : JobKind

pub data JobState : Type 0 where
  queued running cancelling cancelled succeeded failed interrupted : JobState

unfoldable pub JobState-discrete : Discrete JobState
JobState-discrete = hlevel

instance abbrev pub job_state_eq : Eq JobState
job_state_eq = discrete_eq JobState-discrete

-- `JobState::permits`.
unfoldable pub permits : JobState → JobState → Bool
permits queued running = true
permits queued cancelled = true
permits queued failed = true
permits running cancelling = true
permits running succeeded = true
permits running failed = true
permits running interrupted = true
permits cancelling cancelled = true
permits cancelling succeeded = true
permits cancelling failed = true
permits cancelling interrupted = true
permits interrupted queued = true
permits interrupted cancelled = true
permits interrupted failed = true
permits _ _ = false

pub data CancellationState : Type 0 where
  not_requested requested acknowledged : CancellationState

pub data JobError : Type 0 where
  invalid_metadata : String → JobError
  invalid_transition : JobState → JobState → JobError

-- The markers of `validate_summary`.
abbrev pub credential_markers : List Text
credential_markers =
    codes "bearer "
    ∷ codes "gho_"
    ∷ codes "ghp_"
    ∷ codes "github_pat_"
    ∷ codes "token="
    ∷ codes "-----begin"
    ∷ []

unfoldable pub credential_shaped : Text → Bool
credential_shaped value = any credential_markers (contains_text (to_ascii_lowercase value))

-- Newline, carriage return and NUL.
unfoldable pub is_line_break : ℕ → Bool
is_line_break c = c == 10 || c == 13 || c == 0

unfoldable pub validate_summary : Text → Result JobError Text
unfolding is_line_break
validate_summary value =
    let trimmed = trim value in
    reject_if
      (is_empty trimmed
        || ltb max_summary_bytes (len trimmed)
        || any trimmed is_line_break
        || credential_shaped trimmed)
      (invalid_metadata "summary")
    >> ok trimmed

unfoldable pub validate_metadata : Text → String → Result JobError Text
validate_metadata value field =
    let trimmed = trim value in
    reject_if (is_empty trimmed || ltb 64 (len trimmed) || any trimmed is_control)
      (invalid_metadata field)
    >> ok trimmed

pub record JobCheckpoint : Type 0 where
  pub sequence : ℕ
  pub kind : Text
  pub summary : Text
  pub recorded_at : ℕ

-- `JobCheckpoint::new`.
unfoldable pub new_checkpoint : ℕ → ℕ → Text → Text → Result JobError JobCheckpoint
new_checkpoint now sequence kind summary = do
  kind' ← validate_metadata kind "checkpoint kind"
  summary' ← validate_summary summary
  ok (record { sequence = sequence; kind = kind'; summary = summary'; recorded_at = now })

pub record Job : Type 0 where
  pub id : ℕ
  pub kind : JobKind
  pub task_id : Option ℕ
  pub state : JobState
  pub cancellation : CancellationState
  pub summary : Text
  pub checkpoint : Option JobCheckpoint
  pub created_at : ℕ
  pub updated_at : ℕ
  pub generation : ℕ

-- `Job::new`.
unfoldable pub new : ℕ → ℕ → JobKind → Option ℕ → Text → Result JobError Job
new id now kind task_id summary = do
  summary' ← validate_summary summary
  ok (record {
    id = id;
    kind = kind;
    task_id = task_id;
    state = queued;
    cancellation = not_requested;
    summary = summary';
    checkpoint = none;
    created_at = now;
    updated_at = now;
    generation = 0;
  })
