-- ===== src/Engine/Monitoring/Tests.antt =====
-- Monitors at concrete inputs.
use patchwright.Prelude.{◌≤◌, ◌≡◌, ◌↔◌, refl, Bool, true, false, ◌∷◌, [], none, List, ok, replicate}
use patchwright.Prelude.Text.{Text, codes, len, is_whitespace, is_ascii_hexdigit, split_once}
use patchwright.Engine.Monitoring.{
  CiState, success, failure, approved, mergeable, succeeded, MonitorRecord, RemoteObservation, said,
  is_sha, has_no_slash, validate_sha, fresh, new, observe, is_terminal, still_limited,
}
use patchwright.Engine.Monitoring.Success.{Passes, observe-iff_Passes}
use patchwright.Engine.Monitoring.Runs.{
  Call, observes, wakes, run, repairs, IsScheduled, run-IsScheduled, run-closed,
}
use patchwright.Engine.Monitoring.Bounds.{Soon, observe-Soon}

abbrev sha : Text
sha = replicate 40 b'a'

abbrev watched : MonitorRecord
watched = fresh 5 1 (codes "o/r") 7 sha sha 1000 1

abbrev seen : CiState → Bool → RemoteObservation
seen ci online = record {
  observed_at = 2000;
  head_sha = sha;
  base_sha = sha;
  ci = ci;
  review = approved;
  mergeability = mergeable;
  repository_accessible = true;
  network_available = online;
  rate_limited_until = none;
}

sha-IsSha : is_sha sha ≡ true
unfolding is_sha len is_ascii_hexdigit
sha-IsSha = refl

new-watched : new 5 1 (codes "o/r") 7 sha sha 1000 1 ≡ ok watched
unfolding new validate_sha is_sha len is_ascii_hexdigit has_no_slash split_once is_whitespace
new-watched = refl

watched-IsOpen : is_terminal watched.state ≡ false
unfolding is_terminal
watched-IsOpen = refl

observe-iff_Passes_example :
    ((observe 2000 (seen success true) watched).0.state ≡ succeeded)
    ↔ Passes 2000 (seen success true) watched
observe-iff_Passes_example = observe-iff_Passes 2000 (seen success true) watched watched-IsOpen

abbrev two_failures : List Call
two_failures =
    observes 2000 (seen failure true) ∷ wakes 2500 ∷ observes 3000 (seen failure true) ∷ []

run-IsScheduled_example :
    IsScheduled (run two_failures watched) × (repairs two_failures watched ≤ 1)
run-IsScheduled_example =
    run-IsScheduled 5 1 (codes "o/r") 7 sha sha 1000 1 watched two_failures new-watched

abbrev done : MonitorRecord
done = record watched { state = succeeded; next_attempt_at = none; summary = said "done" }

done-IsClosed : is_terminal done.state ≡ true
unfolding is_terminal
done-IsClosed = refl

run-closed_example : (run two_failures done ≡ done) × (repairs two_failures done ≡ 0)
run-closed_example = run-closed two_failures done done-IsClosed

seen-unlimited : still_limited 2000 none ≡ none
unfolding still_limited
seen-unlimited = refl

observe-Soon_example : Soon 2000 (observe 2000 (seen success false) watched).0
unfolding is_sha len is_ascii_hexdigit
observe-Soon_example =
    observe-Soon 2000 (seen success false) watched watched-IsOpen refl seen-unlimited
