-- ===== src/Engine/Monitoring/Bounds.antt =====
-- How soon a waiting monitor is tried again (crates/patchwright-engine/src/monitoring.rs).
use patchwright.Prelude.{
  ℕ, ◌≤◌, ◌≡◌, ◌+◌, ◌*◌, ◌-◌, ◌%◌, refl, true, false, not, ◌&&◌, Option, none, some, arith, leb,
  ◌==◌, list_eq, nat_eq, if_both, Bool, ◌^◌, zero, suc, leb→le, if◌then◌else◌,
}
use Prim.Native.Nat.{bit_xor}
use Prim.Native.String.{String}
use patchwright.Engine.Monitoring.{
  RemoteObservation, MonitorRecord, MonitorOutcome, Summary, Mergeability, mergeable, unknown,
  conflicting, inaccessible_fork, is_sha, is_terminal, is_waiting, is_success, nanos_per_second,
  pause, schedule, block, observe_results, observe_mergeability, still_limited, observe_limited,
  observe_valid, noted, observe,
}

doubling : (k : ℕ) → 1 ≤ 2 ^ k
doubling zero = omega arith
doubling (suc k) = omega (arith, doubling k)

-- Whatever the base and the jitter.
clipped :
    (base x : ℕ)
    → 1 ≤ base
    → (30 ≤ (if leb (30 * base) 900 then 30 * base else 900) + x % 11)
      × ((if leb (30 * base) 900 then 30 * base else 900) + x % 11 ≤ 910)
clipped base x h =
    if_both (λ (c : ℕ). (30 ≤ c + x % 11) × (c + x % 11 ≤ 910)) (leb (30 * base) 900) (30 * base)
      900 (λ e. let le = leb→le (30 * base) 900 e in omega arith) (λ e. omega arith)

pub pause-bounds : (id n : ℕ) → (30 ≤ pause id n) × (pause id n ≤ 910)
unfolding pause
pause-bounds id n = clipped _ (bit_xor id n) (doubling (if leb (n - 1) 5 then n - 1 else 5))

-- The next attempt of a record that waits is half a minute to 910 seconds away.
abbrev pub Soon : ℕ → MonitorRecord → Type 0
Soon now m =
    is_waiting m.state ≡ true
    → (t : ℕ) × (m.next_attempt_at ≡ some t)
      × (now + 30 * nanos_per_second ≤ t)
      × (t ≤ now + 910 * nanos_per_second)

abbrev SoonAfter : ℕ → MonitorRecord × MonitorOutcome → Type 0
SoonAfter now (m, o) = Soon now m

schedule-Soon :
    (now : ℕ) (summary : Summary) (m : MonitorRecord) → SoonAfter now (schedule now summary m)
unfolding schedule
schedule-Soon now summary m h =
    let bounds = pause-bounds m.id m.attempt_count in
    (now + pause m.id m.attempt_count * nanos_per_second, refl, omega arith, omega arith)

block-Soon :
    (now : ℕ) (summary : Summary) (invalidate : Bool) (m : MonitorRecord)
    → SoonAfter now (block summary invalidate m)
unfolding block is_waiting
block-Soon now summary invalidate m h = cc

observe_results-Soon :
    (now : ℕ) (o : RemoteObservation) (reason : Option String) (m : MonitorRecord)
    → SoonAfter now (observe_results now o reason m)
unfolding observe_results is_waiting
observe_results-Soon now o none m =
    if_both (SoonAfter now) (is_success o.ci o.review) _ _ (λ _ h. cc) (λ _. schedule-Soon now _ m)
observe_results-Soon now o (some reason) m =
    if_both (SoonAfter now) (leb m.repair_budget m.repair_iteration) _ _
      (λ _. block-Soon now _ true m) (λ _ h. cc)

observe_mergeability-Soon :
    (now : ℕ) (o : RemoteObservation) (merge : Mergeability) (m : MonitorRecord)
    → SoonAfter now (observe_mergeability now o merge m)
unfolding observe_mergeability
observe_mergeability-Soon now o unknown m = schedule-Soon now _ m
observe_mergeability-Soon now o conflicting m = block-Soon now _ true m
observe_mergeability-Soon now o inaccessible_fork m = block-Soon now _ true m
observe_mergeability-Soon now o mergeable m = observe_results-Soon now o _ m

observe_limited-Soon :
    (now : ℕ) (o : RemoteObservation) (m : MonitorRecord)
    → SoonAfter now (observe_limited now o none m)
unfolding observe_limited
observe_limited-Soon now o m =
    if_both (SoonAfter now) (not o.repository_accessible) _ _ (λ _. block-Soon now _ true m)
      (λ _.
        if_both (SoonAfter now) (not (o.head_sha == m.expected_head_sha)) _ _
          (λ _. block-Soon now _ true m)
          (λ _.
            if_both (SoonAfter now) (not (o.base_sha == m.expected_base_sha)) _ _
              (λ _. block-Soon now _ true m)
              (λ _. observe_mergeability-Soon now o o.mergeability m)))

observe_valid-Soon :
    (now : ℕ) (o : RemoteObservation) (m : MonitorRecord)
    → still_limited now o.rate_limited_until ≡ none
    → SoonAfter now (observe_valid now o m)
unfolding observe_valid
observe_valid-Soon now o m e =
    if_both (SoonAfter now) (not o.network_available) _ _ (λ _. schedule-Soon now _ m)
      (λ _. rw e (observe_limited-Soon now o m))

-- An accepted observation with no rate limit in force that leaves a monitor waiting sets its next
-- attempt between half a minute and 910 seconds after now.
pub observe-Soon :
    (now : ℕ) (o : RemoteObservation) (m : MonitorRecord)
    → is_terminal m.state ≡ false
    → (is_sha o.head_sha && is_sha o.base_sha) ≡ true
    → still_limited now o.rate_limited_until ≡ none
    → Soon now (observe now o m).0
unfolding observe
observe-Soon now o m open_still well_formed free =
    rw (open_still, well_formed) (observe_valid-Soon now o (noted now o m) free)
