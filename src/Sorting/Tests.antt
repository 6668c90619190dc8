-- ===== src/Sorting/Tests.antt =====
-- Sorts of crates/patchwright-core/src/sorting.rs at concrete records.
use mathlib.Core.List.{Perm}
use patchwright.Prelude.{
  ◌+◌, ◌-◌, ◌*◌, leb, if◌then◌else◌, arith, ℕ, ◌≡◌, ◌↔◌, refl, true, false, Option, none, some,
  List, [], ◌∷◌, map,
}
use patchwright.Prelude.Text.{codes}
use patchwright.Prelude.Sorting.{IsSorted}
use patchwright.Prelude.Orders.{
  ℤ, pos, negsuc, is_le, reverse, then_with, compare_integers, compare_texts,
}
use patchwright.Sorting.{
  WorkspaceFilter, nanos_per_day, matches, matches_first, matches_last, is_young, CiHealth-discrete,
  ascending, descending, apply_direction, compare_optional, RepositorySort, RepositorySortKey,
  RepositoryQueueRecord, repository_primary_order, repository_order, sort_repositories,
  PullRequestSort, PullRequestSortKey, PullRequestQueueRecord, CiHealth, ci_sort_rank,
  pull_request_primary_order, pull_request_order, sort_pull_requests,
}
use patchwright.Sorting.Filtering.{
  Allows, AllowsFirst, IsDaysBefore, InRange, OutOfRange, matches-iff_Allows,
}
use mathlib.Core.Bool.{decide}
use patchwright.Sorting.Results.{
  known_first, repository_is_known, pull_request_is_known, sort_repositories-IsSorted,
  sort_pull_requests-IsSorted,
}

abbrev repository : ℕ → Option ℤ → RepositoryQueueRecord
repository id priority = record {
  id = id;
  full_name = codes "octocat/example";
  queue_priority = priority;
  updated_at = 100;
  pushed_at = none;
  default_branch_committed_at = none;
  open_pull_request_count = 1;
  failing_check_count = 0;
}

abbrev repositories : List RepositoryQueueRecord
repositories =
    repository 1 none
    ∷ repository 2 (some (pos 5))
    ∷ repository 3 (some (negsuc 0))
    ∷ repository 4 (some (pos 5))
    ∷ []

abbrev by_priority : RepositorySort
by_priority = record { key = RepositorySortKey.queue_priority; direction = descending }

priorities_descend :
    map (λ r. r.id) (sort_repositories repositories by_priority) ≡ 2 ∷ 4 ∷ 3 ∷ 1 ∷ []
unfolding sort_repositories repository_order repository_primary_order compare_optional
    apply_direction compare_integers compare_texts then_with reverse is_le
priorities_descend = refl

sort_repositories-IsSorted_example :
    Perm (sort_repositories repositories by_priority) repositories
    × IsSorted
        (λ a b. is_le (repository_order by_priority a b))
        (sort_repositories repositories by_priority)
    × IsSorted
        (known_first (repository_is_known RepositorySortKey.queue_priority))
        (sort_repositories repositories by_priority)
sort_repositories-IsSorted_example = sort_repositories-IsSorted repositories by_priority

abbrev pull_request : ℕ → Option CiHealth → PullRequestQueueRecord
pull_request id health = record {
  id = id;
  number = id;
  queue_priority = none;
  updated_at = 100;
  head_committed_at = none;
  latest_review_at = none;
  ci_health = health;
  review_state = none;
  created_at = 50;
  additions = 3;
  deletions = 1;
  is_open = true;
  draft = false;
  author = codes "octocat";
  assignees = [];
  labels = [];
  has_conflicts = none;
  queue_state = none;
  active_codex_work = false;
}

abbrev pull_requests : List PullRequestQueueRecord
pull_requests =
    pull_request 1 (some CiHealth.unknown)
    ∷ pull_request 2 (some CiHealth.passing)
    ∷ pull_request 3 none
    ∷ pull_request 4 (some CiHealth.failing)
    ∷ []

abbrev by_health : PullRequestSort
by_health = record { key = PullRequestSortKey.ci_health; direction = ascending }

failing_comes_first :
    map (λ r. r.id) (sort_pull_requests pull_requests by_health) ≡ 4 ∷ 2 ∷ 1 ∷ 3 ∷ []
unfolding sort_pull_requests pull_request_order pull_request_primary_order compare_optional
    ci_sort_rank apply_direction then_with reverse is_le
failing_comes_first = refl

sort_pull_requests-IsSorted_example :
    Perm (sort_pull_requests pull_requests by_health) pull_requests
    × IsSorted
        (λ a b. is_le (pull_request_order by_health a b))
        (sort_pull_requests pull_requests by_health)
    × IsSorted
        (known_first (pull_request_is_known PullRequestSortKey.ci_health))
        (sort_pull_requests pull_requests by_health)
sort_pull_requests-IsSorted_example = sort_pull_requests-IsSorted pull_requests by_health

-- Failing pull requests by a known author, updated within a day.
abbrev attention : WorkspaceFilter
attention = record {
  is_open = some true;
  draft = none;
  authors = codes "octocat" ∷ [];
  assignees = [];
  labels = [];
  review_states = [];
  ci_results = CiHealth.failing ∷ [];
  has_conflicts = none;
  maximum_age_days = some 1;
  queue_states = [];
  active_codex_work = none;
}

-- A calendar that begins at the origin.
abbrev from_origin : ℕ → ℕ → Option ℕ
from_origin now days =
    if leb (days * nanos_per_day) now then some (now - days * nanos_per_day) else none

from_origin-IsDaysBefore : IsDaysBefore from_origin
from_origin-IsDaysBefore now days earliest e = ground arith

abbrev later : ℕ
later = nanos_per_day + 50

failing_passes_the_filter :
    matches from_origin attention (pull_request 4 (some CiHealth.failing)) later ≡ some true
unfolding matches matches_first matches_last is_young decide CiHealth-discrete
failing_passes_the_filter = refl

unknown_is_filtered_out : matches from_origin attention (pull_request 3 none) later ≡ some false
unfolding matches matches_first matches_last is_young decide CiHealth-discrete
unknown_is_filtered_out = refl

ages_beyond_the_calendar :
    matches from_origin
      (record attention { maximum_age_days = some 9 })
      (pull_request 4 (some CiHealth.failing))
      later
    ≡ none
unfolding matches matches_first matches_last is_young decide CiHealth-discrete
ages_beyond_the_calendar = refl

matches-iff_Allows_example :
    ((matches from_origin attention (pull_request 4 (some CiHealth.failing)) later ≡ some true) ↔ (
      Allows attention (pull_request 4 (some CiHealth.failing)) later
      × InRange from_origin attention later))
    × ((matches from_origin attention (pull_request 4 (some CiHealth.failing)) later ≡ none) ↔ (
        AllowsFirst attention (pull_request 4 (some CiHealth.failing))
        × OutOfRange from_origin attention later))
matches-iff_Allows_example =
    matches-iff_Allows from_origin attention (pull_request 4 (some CiHealth.failing)) later
      from_origin-IsDaysBefore
