-- ===== src/Sorting.antt =====
-- crates/patchwright-core/src/sorting.rs: the order in which repositories and pull requests are
-- shown. Times are nanoseconds from a fixed origin; a set is a list.
pub mod Orders
pub mod Results
pub mod Conditions
pub mod Filtering
mod Tests
use Prim.Native.Nat.{compare, Ordering}
use patchwright.Prelude.{
  ℕ, ◌+◌, ◌-◌, ◌^◌, Bool, Option, none, some, List, leb, if◌then◌else◌, true, false, ◌*◌, ◌&&◌,
  ◌||◌, ◌==◌, Eq, discrete_eq, option_eq, list_eq, nat_eq, is_empty, contains, any, bool_eq,
}
use patchwright.Prelude.Text.{Text}
use patchwright.Prelude.Orders.{ℤ, reverse, then_with, compare_integers, compare_texts, sort_with}

pub data SortDirection : Type 0 where
  ascending descending : SortDirection

unfoldable pub apply_direction : Ordering → SortDirection → Ordering
apply_direction ordering ascending = ordering
apply_direction ordering descending = reverse ordering

module _ {A : Type 0} (cmp : A → A → Ordering) where
  unfoldable pub compare_value : A → A → SortDirection → Ordering
  compare_value left right direction = apply_direction (cmp left right) direction

  -- An unknown value comes last, whatever the direction.
  unfoldable pub compare_optional : Option A → Option A → SortDirection → Ordering
  compare_optional (some left) (some right) direction = apply_direction (cmp left right) direction
  compare_optional (some left) none direction = Ordering.lt
  compare_optional none (some right) direction = Ordering.gt
  compare_optional none none direction = Ordering.eq

pub data RepositorySortKey : Type 0 where
  queue_priority recently_updated recently_pushed latest_default_branch_commit : RepositorySortKey
  open_pull_request_count failing_check_count name : RepositorySortKey

pub record RepositorySort : Type 0 where
  pub key : RepositorySortKey
  pub direction : SortDirection

pub record RepositoryQueueRecord : Type 0 where
  pub id : ℕ
  pub full_name : Text
  pub queue_priority : Option ℤ
  pub updated_at : ℕ
  pub pushed_at : Option ℕ
  pub default_branch_committed_at : Option ℕ
  pub open_pull_request_count : ℕ
  pub failing_check_count : ℕ

unfoldable pub repository_primary_order :
    RepositorySortKey → SortDirection → RepositoryQueueRecord → RepositoryQueueRecord → Ordering
repository_primary_order queue_priority d a b =
    compare_optional compare_integers a.queue_priority b.queue_priority d
repository_primary_order recently_updated d a b = compare_value compare a.updated_at b.updated_at d
repository_primary_order recently_pushed d a b = compare_optional compare a.pushed_at b.pushed_at d
repository_primary_order latest_default_branch_commit d a b =
    compare_optional compare a.default_branch_committed_at b.default_branch_committed_at d
repository_primary_order open_pull_request_count d a b =
    compare_value compare a.open_pull_request_count b.open_pull_request_count d
repository_primary_order failing_check_count d a b =
    compare_value compare a.failing_check_count b.failing_check_count d
repository_primary_order name d a b = compare_value compare_texts a.full_name b.full_name d

-- The closure of `sort_repositories`.
unfoldable pub repository_order :
    RepositorySort → RepositoryQueueRecord → RepositoryQueueRecord → Ordering
repository_order sort left right =
    then_with
      (then_with (repository_primary_order sort.key sort.direction left right)
        (compare_texts left.full_name right.full_name))
      (compare left.id right.id)

unfoldable pub sort_repositories :
    List RepositoryQueueRecord → RepositorySort → List RepositoryQueueRecord
sort_repositories records sort = sort_with (repository_order sort) records

pub data CiHealth : Type 0 where
  failing pending passing unknown : CiHealth

-- `CiHealth::sort_rank`.
unfoldable pub ci_sort_rank : CiHealth → Option ℕ
ci_sort_rank failing = some 1
ci_sort_rank pending = some 2
ci_sort_rank passing = some 3
ci_sort_rank unknown = none

pub data ReviewState : Type 0 where
  changes_requested review_required dismissed approved unknown : ReviewState

-- `ReviewState::sort_rank`.
unfoldable pub review_sort_rank : ReviewState → Option ℕ
review_sort_rank changes_requested = some 1
review_sort_rank review_required = some 2
review_sort_rank dismissed = some 3
review_sort_rank approved = some 4
review_sort_rank ReviewState.unknown = none

pub data PullRequestQueueState : Type 0 where
  inbox assessed ready needs_work blocked active awaiting_write_approval : PullRequestQueueState
  monitoring merge_ready awaiting_merge_approval merged failed : PullRequestQueueState

pub data PullRequestSortKey : Type 0 where
  queue_priority recently_updated latest_head_commit latest_review_activity ci_health :
      PullRequestSortKey
  review_state created_newest created_oldest change_size number : PullRequestSortKey

pub record PullRequestSort : Type 0 where
  pub key : PullRequestSortKey
  pub direction : SortDirection

pub record PullRequestQueueRecord : Type 0 where
  pub id : ℕ
  pub number : ℕ
  pub queue_priority : Option ℤ
  pub updated_at : ℕ
  pub head_committed_at : Option ℕ
  pub latest_review_at : Option ℕ
  pub ci_health : Option CiHealth
  pub review_state : Option ReviewState
  pub created_at : ℕ
  pub additions : ℕ
  pub deletions : ℕ
  pub is_open : Bool
  pub draft : Bool
  pub author : Text
  pub assignees : List Text
  pub labels : List Text
  pub has_conflicts : Option Bool
  pub queue_state : Option PullRequestQueueState
  pub active_codex_work : Bool

unfoldable pub CiHealth-discrete : Discrete CiHealth
CiHealth-discrete = hlevel

instance abbrev pub ci_health_eq : Eq CiHealth
ci_health_eq = discrete_eq CiHealth-discrete

unfoldable pub ReviewState-discrete : Discrete ReviewState
ReviewState-discrete = hlevel

instance abbrev pub review_state_eq : Eq ReviewState
review_state_eq = discrete_eq ReviewState-discrete

unfoldable pub PullRequestQueueState-discrete : Discrete PullRequestQueueState
PullRequestQueueState-discrete = hlevel

instance abbrev pub queue_state_eq : Eq PullRequestQueueState
queue_state_eq = discrete_eq PullRequestQueueState-discrete

-- `u64::saturating_add`.
unfoldable pub saturating_add : ℕ → ℕ → ℕ
saturating_add a b = if leb (a + b) (2 ^ 64 - 1) then a + b else 2 ^ 64 - 1

-- `Option::and_then`.
abbrev pub and_then : {A B : Type 0} → Option A → (A → Option B) → Option B
and_then none f = none
and_then (some a) f = f a

unfoldable pub pull_request_primary_order :
    PullRequestSortKey → SortDirection → PullRequestQueueRecord → PullRequestQueueRecord → Ordering
pull_request_primary_order PullRequestSortKey.queue_priority d a b =
    compare_optional compare_integers a.queue_priority b.queue_priority d
pull_request_primary_order PullRequestSortKey.recently_updated d a b =
    compare_value compare a.updated_at b.updated_at d
pull_request_primary_order latest_head_commit d a b =
    compare_optional compare a.head_committed_at b.head_committed_at d
pull_request_primary_order latest_review_activity d a b =
    compare_optional compare a.latest_review_at b.latest_review_at d
pull_request_primary_order ci_health d a b =
    compare_optional compare (and_then a.ci_health ci_sort_rank) (and_then b.ci_health ci_sort_rank)
      d
pull_request_primary_order review_state d a b =
    compare_optional compare (and_then a.review_state review_sort_rank)
      (and_then b.review_state review_sort_rank) d
pull_request_primary_order created_newest d a b = compare_value compare a.created_at b.created_at d
pull_request_primary_order created_oldest d a b = compare_value compare b.created_at a.created_at d
pull_request_primary_order change_size d a b =
    compare_value compare (saturating_add a.additions a.deletions)
      (saturating_add b.additions b.deletions) d
pull_request_primary_order number d a b = compare_value compare a.number b.number d

-- The closure of `sort_pull_requests`.
unfoldable pub pull_request_order :
    PullRequestSort → PullRequestQueueRecord → PullRequestQueueRecord → Ordering
pull_request_order sort left right =
    then_with
      (then_with (pull_request_primary_order sort.key sort.direction left right)
        (compare left.number right.number))
      (compare left.id right.id)

unfoldable pub sort_pull_requests :
    List PullRequestQueueRecord → PullRequestSort → List PullRequestQueueRecord
sort_pull_requests records sort = sort_with (pull_request_order sort) records

pub record WorkspaceFilter : Type 0 where
  pub is_open : Option Bool
  pub draft : Option Bool
  pub authors : List Text
  pub assignees : List Text
  pub labels : List Text
  pub review_states : List ReviewState
  pub ci_results : List CiHealth
  pub has_conflicts : Option Bool
  pub maximum_age_days : Option ℕ
  pub queue_states : List PullRequestQueueState
  pub active_codex_work : Option Bool

-- `Option::is_none_or` and `Option::is_some_and`.
abbrev pub is_none_or : {A : Type 0} → Option A → (A → Bool) → Bool
is_none_or none p = true
is_none_or (some a) p = p a

abbrev pub is_some_and : {A : Type 0} → Option A → (A → Bool) → Bool
is_some_and none p = false
is_some_and (some a) p = p a

abbrev pub nanos_per_day : ℕ
nanos_per_day = 24 * 60 * 60 * 1000000000

-- The tests of `matches` that come before the one of the age.
unfoldable pub matches_first : WorkspaceFilter → PullRequestQueueRecord → Bool
matches_first filter row =
    is_none_or filter.is_open (λ expected. row.is_open == expected)
    && (is_none_or filter.draft (λ expected. row.draft == expected)
        && ((is_empty filter.authors || contains filter.authors row.author)
            && ((is_empty filter.assignees || any row.assignees (contains filter.assignees))
                && ((is_empty filter.labels || any row.labels (contains filter.labels))
                    && ((is_empty filter.review_states
                          || is_some_and row.review_state (contains filter.review_states))
                        && ((is_empty filter.ci_results
                              || is_some_and row.ci_health (contains filter.ci_results))
                            && is_none_or filter.has_conflicts
                                (λ expected. row.has_conflicts == some expected)))))))

-- The tests that come after it.
unfoldable pub matches_last : WorkspaceFilter → PullRequestQueueRecord → Bool
matches_last filter row =
    (is_empty filter.queue_states || is_some_and row.queue_state (contains filter.queue_states))
    && is_none_or filter.active_codex_work (λ expected. row.active_codex_work == expected)

-- `updated_at >= earliest`, and none for a panic.
abbrev pub reaches : Option ℕ → ℕ → Option Bool
reaches none updated_at = none
reaches (some earliest) updated_at = some (leb earliest updated_at)

-- The test of the age, on `now - Duration::days(days)`.
unfoldable pub is_young : (ℕ → ℕ → Option ℕ) → Option ℕ → ℕ → ℕ → Option Bool
is_young days_before none updated_at now = some true
is_young days_before (some days) updated_at now = reaches (days_before now days) updated_at

abbrev pub and_later : Option Bool → Bool → Option Bool
and_later none last = none
and_later (some young) last = some (young && last)

-- `WorkspaceFilter::matches`, with none for a panic. `days_before now days` stands for chrono's
-- `now - Duration::days(days)`, which panics, here none, when it can hold no such time.
unfoldable pub matches :
    (ℕ → ℕ → Option ℕ) → WorkspaceFilter → PullRequestQueueRecord → ℕ → Option Bool
unfolding matches_first matches_last is_young
matches days_before filter row now =
    if matches_first filter row
    then and_later (is_young days_before filter.maximum_age_days row.updated_at now)
        (matches_last filter row)
    else some false
