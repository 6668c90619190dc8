-- ===== src/Engine/Monitoring/Success.antt =====
-- When a watched pull request is found done (crates/patchwright-engine/src/monitoring.rs).
use patchwright.Prelude.{
  ℕ, ◌≤◌, ◌≡◌, ◌↔◌, ◌≢◌, refl, Bool, true, false, not, ◌&&◌, Option, none, some, arith, ◌==◌,
  list_eq, nat_eq, if◌then◌else◌, Result, same_list_iff,
}
use patchwright.Engine.Monitoring.{
  RemoteObservation, MonitorRecord, MonitorOutcome, MonitorState, succeeded, CiState, success,
  failure, ReviewState, approved, changes_requested, approval_dismissed, Mergeability, mergeable,
  unknown, conflicting, inaccessible_fork, is_sha, is_terminal, schedule, block, is_success,
  repair_reason, observe_results, observe_mergeability, still_limited, observe_limited,
  observe_valid, noted, observe, accepted, MonitoringError,
}

-- What a pull request must show.
pub record Passes (now : ℕ) (o : RemoteObservation) (m : MonitorRecord) : Type 0 where
  pub well_formed : (is_sha o.head_sha && is_sha o.base_sha) ≡ true
  pub online : o.network_available ≡ true
  pub unlimited : (until : ℕ) → o.rate_limited_until ≡ some until → until ≤ now
  pub accessible : o.repository_accessible ≡ true
  pub same_head : o.head_sha ≡ m.expected_head_sha
  pub same_base : o.base_sha ≡ m.expected_base_sha
  pub can_merge : o.mergeability ≡ mergeable
  pub ci_passed : o.ci ≡ success
  pub review_approved : o.review ≡ approved

-- A ladder of guards that lead elsewhere.
guards :
    (a b c : Bool) (x y z rest : MonitorRecord × MonitorOutcome)
    → x.0.state ≢ succeeded
    → y.0.state ≢ succeeded
    → z.0.state ≢ succeeded
    → ((if not a then x else if not b then y else if not c then z else rest).0.state ≡ succeeded)
      ↔ ((a ≡ true) × (b ≡ true) × (c ≡ true) × (rest.0.state ≡ succeeded))
guards a b c x y z rest h k l = ground arith

observe_results-success :
    (now : ℕ) (o : RemoteObservation) (ci : CiState) (review : ReviewState) (m : MonitorRecord)
    → o.ci ≡ ci
    → o.review ≡ review
    → ((observe_results now o (repair_reason ci review) m).0.state ≡ succeeded)
      ↔ ((ci ≡ success) × (review ≡ approved))
unfolding observe_results repair_reason is_success schedule block
observe_results-success now o failure review m e f = (λ h. ground arith, λ h. cc)
observe_results-success now o success ReviewState.pending m e f = (λ h. ground arith, λ h. cc)
observe_results-success now o success approved m e f = (λ h. (refl, refl), λ h. ground arith)
observe_results-success now o success changes_requested m e f = (λ h. ground arith, λ h. cc)
observe_results-success now o success approval_dismissed m e f = (λ h. ground arith, λ h. cc)
observe_results-success now o CiState.pending ReviewState.pending m e f =
    (λ h. ground arith, λ h. cc)
observe_results-success now o CiState.pending approved m e f = (λ h. ground arith, λ h. cc)
observe_results-success now o CiState.pending changes_requested m e f = (λ h. ground arith, λ h. cc)
observe_results-success now o CiState.pending approval_dismissed m e f =
    (λ h. ground arith, λ h. cc)

observe_mergeability-success :
    (now : ℕ) (o : RemoteObservation) (merge : Mergeability) (m : MonitorRecord)
    → ((observe_mergeability now o merge m).0.state ≡ succeeded)
      ↔ ((merge ≡ mergeable) × (o.ci ≡ success) × (o.review ≡ approved))
unfolding observe_mergeability block schedule
observe_mergeability-success now o unknown m = (λ h. cc, λ h. cc)
observe_mergeability-success now o conflicting m = (λ h. cc, λ h. cc)
observe_mergeability-success now o inaccessible_fork m = (λ h. cc, λ h. cc)
observe_mergeability-success now o mergeable m =
    let results = observe_results-success now o o.ci o.review m refl refl in
    (λ h. (refl, (results.0 h).0, (results.0 h).1), λ h. results.1 (h.1, h.2))

still_limited-none :
    (now : ℕ) (limit : Option ℕ)
    → (still_limited now limit ≡ none) ↔ ((until : ℕ) → limit ≡ some until → until ≤ now)
unfolding still_limited
still_limited-none now none = (λ _ until e. cc, λ _. refl)
still_limited-none now (some u) = (λ h until e. ground arith, λ h. ground (arith, h u refl))

observe_limited-success :
    (now : ℕ) (o : RemoteObservation) (limit : Option ℕ) (m : MonitorRecord)
    → ((observe_limited now o limit m).0.state ≡ succeeded) ↔ (
        (limit ≡ none)
        × (o.repository_accessible ≡ true)
        × ((o.head_sha == m.expected_head_sha) ≡ true)
        × ((o.base_sha == m.expected_base_sha) ≡ true)
        × ((observe_mergeability now o o.mergeability m).0.state ≡ succeeded))
unfolding observe_limited block
observe_limited-success now o (some until) m = (λ h. cc, λ h. cc)
observe_limited-success now o none m =
    (λ h. let l = ladder.0 h in (refl, l.0, l.1, l.2, l.3), λ h. ladder.1 (h.1, h.2, h.3, h.4))
  where
    ladder : ((observe_limited now o none m).0.state ≡ succeeded) ↔ (
        (o.repository_accessible ≡ true)
        × ((o.head_sha == m.expected_head_sha) ≡ true)
        × ((o.base_sha == m.expected_base_sha) ≡ true)
        × ((observe_mergeability now o o.mergeability m).0.state ≡ succeeded))
    ladder =
        guards o.repository_accessible (o.head_sha == m.expected_head_sha)
          (o.base_sha == m.expected_base_sha) _ _ _ _ (λ e. cc) (λ e. cc) (λ e. cc)

-- Three tests that lead to a record short of success.
tests :
    (a b c : Bool) (x y : MonitorRecord × Result MonitoringError MonitorOutcome)
    (z rest : MonitorRecord × MonitorOutcome)
    → a ≡ false
    → y.0.state ≢ succeeded
    → z.0.state ≢ succeeded
    → ((if a then x else if not b then y else accepted (if not c then z else rest)).0.state
        ≡ succeeded)
      ↔ ((b ≡ true) × (c ≡ true) × (rest.0.state ≡ succeeded))
tests a b c x y z rest e h k = ground arith

open_not_succeeded : (s : MonitorState) → is_terminal s ≡ false → s ≢ succeeded
unfolding is_terminal
open_not_succeeded s h e = ground arith

-- The first tests of an observation.
observe-steps :
    (now : ℕ) (o : RemoteObservation) (m : MonitorRecord)
    → is_terminal m.state ≡ false
    → ((observe now o m).0.state ≡ succeeded) ↔ (
        ((is_sha o.head_sha && is_sha o.base_sha) ≡ true)
        × (o.network_available ≡ true)
        × ((observe_limited now o (still_limited now o.rate_limited_until) (noted now o m)).0.state
            ≡ succeeded))
unfolding observe observe_valid schedule is_terminal
observe-steps now o m open_still =
    tests (is_terminal m.state) (is_sha o.head_sha && is_sha o.base_sha) o.network_available _ _ _ _
      open_still (open_not_succeeded m.state open_still) (λ e. cc)

-- An observation brings a monitor that has not ended to success exactly when the remote can be
-- reached and is not limiting, the pull request stands at the expected commits and can be merged,
-- its checks passed and its review is approved.
pub observe-iff_Passes :
    (now : ℕ) (o : RemoteObservation) (m : MonitorRecord)
    → is_terminal m.state ≡ false
    → ((observe now o m).0.state ≡ succeeded) ↔ Passes now o m
observe-iff_Passes now o m open_still =
    let steps = observe-steps now o m open_still in
    let free = still_limited-none now o.rate_limited_until in
    let limited =
      observe_limited-success now o (still_limited now o.rate_limited_until) (noted now o m) in
    let merge = observe_mergeability-success now o o.mergeability (noted now o m) in
    (
      λ h.
          let s = steps.0 h in
          let l = limited.0 (s.2) in
          let r = merge.0 (l.4) in
          record {
            well_formed = s.0;
            online = s.1;
            unlimited = free.0 (l.0);
            accessible = l.1;
            same_head = (same_list_iff o.head_sha m.expected_head_sha).0 (l.2);
            same_base = (same_list_iff o.base_sha m.expected_base_sha).0 (l.3);
            can_merge = r.0;
            ci_passed = r.1;
            review_approved = r.2;
          },
      λ p. steps.1 (
        p.well_formed,
        p.online,
        limited.1 (
          free.1 p.unlimited,
          p.accessible,
          (same_list_iff o.head_sha m.expected_head_sha).1 p.same_head,
          (same_list_iff o.base_sha m.expected_base_sha).1 p.same_base,
          merge.1 (p.can_merge, p.ci_passed, p.review_approved),
        ),
      ),
    )
