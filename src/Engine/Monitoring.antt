-- ===== src/Engine/Monitoring.antt =====
-- crates/patchwright-engine/src/monitoring.rs: the watch over a pull request. A method returns the
-- record that it leaves. `now` is an argument there too; `id` stands for a fresh UUID, whose bits
-- are those of the number. Times are nanoseconds from a fixed origin.
pub mod Bounds
pub mod Success
pub mod Runs
mod Tests
use Prim.Native.Nat.{bit_xor}
use Prim.Native.String.{String}
use patchwright.Prelude.{
  ℕ, ◌+◌, ◌-◌, ◌*◌, ◌%◌, ◌^◌, Bool, true, false, not, ◌&&◌, ◌||◌, Option, none, some, List, any,
  all, leb, ltb, if◌then◌else◌, ◌==◌, list_eq, nat_eq, Result, ok, err, ◌>>◌, reject_if,
}
use patchwright.Prelude.Text.{Text, is_ascii_hexdigit, is_whitespace, len, split_once}

abbrev pub nanos_per_second : ℕ
nanos_per_second = 1000000000

abbrev pub initial_backoff_seconds : ℕ
initial_backoff_seconds = 30

abbrev pub max_backoff_seconds : ℕ
max_backoff_seconds = 15 * 60

abbrev pub max_u32 : ℕ
max_u32 = 2 ^ 32 - 1

pub data CiState : Type 0 where
  pending success failure : CiState

pub data ReviewState : Type 0 where
  pending approved changes_requested approval_dismissed : ReviewState

pub data Mergeability : Type 0 where
  unknown mergeable conflicting inaccessible_fork : Mergeability

pub data MonitorState : Type 0 where
  pending repair_needed succeeded blocked cancelled : MonitorState

pub record RemoteObservation : Type 0 where
  pub observed_at : ℕ
  pub head_sha : Text
  pub base_sha : Text
  pub ci : CiState
  pub review : ReviewState
  pub mergeability : Mergeability
  pub repository_accessible : Bool
  pub network_available : Bool
  pub rate_limited_until : Option ℕ

-- What a summary is made of: a fixed text, or the values that are put into one.
pub data Summary : Type 0 where
  said : String → Summary
  limited_until : ℕ → Summary
  repair : String → ℕ → ℕ → Summary
  exhausted : String → Summary

pub record MonitorOutcome : Type 0 where
  pub state : MonitorState
  pub summary : Summary
  pub invalidate_approvals : Bool

pub record MonitorRecord : Type 0 where
  pub id : ℕ
  pub task_id : ℕ
  pub repository_full_name : Text
  pub pull_request_number : ℕ
  pub expected_head_sha : Text
  pub expected_base_sha : Text
  pub state : MonitorState
  pub attempt_count : ℕ
  pub repair_iteration : ℕ
  pub repair_budget : ℕ
  pub next_attempt_at : Option ℕ
  pub latest_observation : Option RemoteObservation
  pub summary : Summary
  pub created_at : ℕ
  pub updated_at : ℕ

pub data MonitoringError : Type 0 where
  invalid_repository invalid_pull_request invalid_sha invalid_repair_budget terminal :
      MonitoringError

unfoldable pub is_sha : Text → Bool
is_sha value = len value == 40 && all value is_ascii_hexdigit

unfoldable pub validate_sha : Text → Result MonitoringError Unit
validate_sha value = reject_if (not (is_sha value)) invalid_sha

-- `is_none` on the split at the first slash.
unfoldable pub has_no_slash : Text → Bool
has_no_slash name = elim (split_once b'/' name) [ none ↦ true | some parts ↦ false ]

-- The record that a new monitor starts from.
abbrev pub fresh : ℕ → ℕ → Text → ℕ → Text → Text → ℕ → ℕ → MonitorRecord
fresh id task_id name number head_sha base_sha now budget = record {
  id = id;
  task_id = task_id;
  repository_full_name = name;
  pull_request_number = number;
  expected_head_sha = head_sha;
  expected_base_sha = base_sha;
  state = MonitorState.pending;
  attempt_count = 0;
  repair_iteration = 0;
  repair_budget = budget;
  next_attempt_at = some now;
  latest_observation = none;
  summary = said "waiting for first remote observation";
  created_at = now;
  updated_at = now;
}

-- `MonitorRecord::new`.
unfoldable pub new : ℕ → ℕ → Text → ℕ → Text → Text → ℕ → ℕ → Result MonitoringError MonitorRecord
new id task_id name number head_sha base_sha now budget = do
  reject_if (has_no_slash name || any name is_whitespace) invalid_repository
  reject_if (number == 0) invalid_pull_request
  validate_sha head_sha
  validate_sha base_sha
  reject_if (budget == 0) invalid_repair_budget
  ok (fresh id task_id name number head_sha base_sha now budget)

abbrev pub outcome : MonitorRecord → Bool → MonitorRecord × MonitorOutcome
outcome m invalidate_approvals = (
  m,
  record { state = m.state; summary = m.summary; invalidate_approvals = invalidate_approvals },
)

abbrev min : ℕ → ℕ → ℕ
min a b = if leb a b then a else b

-- `backoff + jitter` in `schedule`, in seconds.
unfoldable pub pause : ℕ → ℕ → ℕ
pause id attempt_count =
    min (initial_backoff_seconds * 2 ^ min (attempt_count - 1) 5) max_backoff_seconds
    + bit_xor id attempt_count % 11

unfoldable pub schedule : ℕ → Summary → MonitorRecord → MonitorRecord × MonitorOutcome
schedule now summary m =
    outcome
      (record m {
        state = MonitorState.pending;
        next_attempt_at = some (now + pause m.id m.attempt_count * nanos_per_second);
        summary = summary;
      })
      false

unfoldable pub block : Summary → Bool → MonitorRecord → MonitorRecord × MonitorOutcome
block summary invalidate_approvals m =
    outcome (record m { state = blocked; next_attempt_at = none; summary = summary })
      invalidate_approvals

unfoldable pub is_terminal : MonitorState → Bool
is_terminal succeeded = true
is_terminal blocked = true
is_terminal cancelled = true
is_terminal _ = false

unfoldable pub is_success : CiState → ReviewState → Bool
is_success success approved = true
is_success _ _ = false

unfoldable pub repair_reason : CiState → ReviewState → Option String
repair_reason failure _ = some "CI failed"
repair_reason _ changes_requested = some "review requested changes"
repair_reason _ approval_dismissed = some "a prior review approval was dismissed"
repair_reason _ _ = none

-- The end of `observe`, by the reason for a repair.
unfoldable pub observe_results :
    ℕ → RemoteObservation → Option String → MonitorRecord → MonitorRecord × MonitorOutcome
observe_results now o (some reason) m =
    if leb m.repair_budget m.repair_iteration
    then block (exhausted reason) true m
    else outcome
        (record m {
          repair_iteration = m.repair_iteration + 1;
          state = repair_needed;
          next_attempt_at = none;
          summary = repair reason (m.repair_iteration + 1) m.repair_budget;
        })
        true
observe_results now o none m =
    if is_success o.ci o.review
    then outcome
        (record m {
          state = succeeded;
          next_attempt_at = none;
          summary = said "CI passed and review is approved";
        })
        false
    else schedule now (said "CI or review is still pending") m

-- `observe` from the test of the mergeability on.
unfoldable pub observe_mergeability :
    ℕ → RemoteObservation → Mergeability → MonitorRecord → MonitorRecord × MonitorOutcome
observe_mergeability now o conflicting m =
    block (said "pull request now has merge conflicts") true m
observe_mergeability now o inaccessible_fork m =
    block (said "pull request fork is inaccessible") true m
observe_mergeability now o unknown m =
    schedule now (said "mergeability is unknown; monitoring will retry") m
observe_mergeability now o mergeable m = observe_results now o (repair_reason o.ci o.review) m

-- `filter(|until| *until > now)`.
unfoldable pub still_limited : ℕ → Option ℕ → Option ℕ
still_limited now none = none
still_limited now (some until) = if ltb now until then some until else none

-- `observe` from the test of the rate limit on.
unfoldable pub observe_limited :
    ℕ → RemoteObservation → Option ℕ → MonitorRecord → MonitorRecord × MonitorOutcome
observe_limited now o (some until) m =
    outcome
      (record m {
        state = MonitorState.pending;
        next_attempt_at = some until;
        summary = limited_until until;
      })
      false
observe_limited now o none m =
    if not o.repository_accessible
    then block (said "repository or installation is no longer accessible") true m
    else if not (o.head_sha == m.expected_head_sha)
    then block (said "pull request head SHA changed") true m
    else if not (o.base_sha == m.expected_base_sha)
    then block (said "pull request base SHA changed") true m
    else observe_mergeability now o o.mergeability m

-- `observe` once the observation is accepted.
unfoldable pub observe_valid :
    ℕ → RemoteObservation → MonitorRecord → MonitorRecord × MonitorOutcome
observe_valid now o m =
    if not o.network_available
    then schedule now (said "network unavailable; monitoring will retry") m
    else observe_limited now o (still_limited now o.rate_limited_until) m

-- What `observe` notes of every accepted observation.
abbrev pub noted : ℕ → RemoteObservation → MonitorRecord → MonitorRecord
noted now o m = record m {
  attempt_count = min (m.attempt_count + 1) max_u32;
  latest_observation = some o;
  updated_at = now;
}

abbrev pub accepted :
    MonitorRecord × MonitorOutcome → MonitorRecord × Result MonitoringError MonitorOutcome
accepted (m, o) = (m, ok o)

-- `MonitorRecord::observe`.
unfoldable pub observe :
    ℕ → RemoteObservation → MonitorRecord → MonitorRecord × Result MonitoringError MonitorOutcome
observe now o m =
    if is_terminal m.state
    then (m, err terminal)
    else if not (is_sha o.head_sha && is_sha o.base_sha)
    then (m, err invalid_sha)
    else accepted (observe_valid now o (noted now o m))

unfoldable pub is_waiting : MonitorState → Bool
is_waiting MonitorState.pending = true
is_waiting _ = false

-- `MonitorRecord::wake`.
unfoldable pub wake : ℕ → MonitorRecord → MonitorRecord × Bool
wake now m = if not (is_waiting m.state) then (m, false) else (
  record m {
    next_attempt_at = some now;
    updated_at = now;
    summary = said "webhook requested an immediate refresh";
  },
  true,
)

-- `MonitorRecord::cancel`.
unfoldable pub cancel : ℕ → MonitorRecord → MonitorRecord × Bool
cancel now m = if is_terminal m.state then (m, false) else (
  record m {
    state = cancelled;
    next_attempt_at = none;
    updated_at = now;
    summary = said "monitoring cancelled by the operator";
  },
  true,
)
