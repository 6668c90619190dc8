-- ===== src/Sorting/Results.antt =====
-- What sorting gives (crates/patchwright-core/src/sorting.rs).
use Prim.Native.Nat.{Ordering}
use mathlib.Core.List.{Perm}
use patchwright.Prelude.{◌≡◌, refl, Bool, true, false, not, ◌||◌, Option, none, some, List}
use patchwright.Prelude.Sorting.{sort_by-perm, IsSorted, IsSorted-weaken}
use patchwright.Prelude.Orders.{is_le, then_with, sort_with-IsSorted}
use patchwright.Sorting.{
  SortDirection, compare_optional, and_then, ci_sort_rank, review_sort_rank, RepositorySort,
  RepositorySortKey, RepositoryQueueRecord, repository_primary_order, repository_order,
  sort_repositories, PullRequestSort, PullRequestSortKey, PullRequestQueueRecord,
  pull_request_primary_order, pull_request_order, sort_pull_requests,
}
use patchwright.Sorting.Orders.{repository_order-IsComparison, pull_request_order-IsComparison}

abbrev is_some : {A : Type 0} → Option A → Bool
is_some none = false
is_some (some a) = true

-- Whether the value that a repository is sorted by is known.
abbrev pub repository_is_known : RepositorySortKey → RepositoryQueueRecord → Bool
repository_is_known RepositorySortKey.queue_priority r = is_some r.queue_priority
repository_is_known RepositorySortKey.recently_pushed r = is_some r.pushed_at
repository_is_known RepositorySortKey.latest_default_branch_commit r =
    is_some r.default_branch_committed_at
repository_is_known _ r = true

abbrev pub pull_request_is_known : PullRequestSortKey → PullRequestQueueRecord → Bool
pull_request_is_known PullRequestSortKey.queue_priority r = is_some r.queue_priority
pull_request_is_known PullRequestSortKey.latest_head_commit r = is_some r.head_committed_at
pull_request_is_known PullRequestSortKey.latest_review_activity r = is_some r.latest_review_at
pull_request_is_known PullRequestSortKey.ci_health r = is_some (and_then r.ci_health ci_sort_rank)
pull_request_is_known PullRequestSortKey.review_state r =
    is_some (and_then r.review_state review_sort_rank)
pull_request_is_known _ r = true

-- The first is known, or the second is unknown too.
abbrev pub known_first : {A : Type 0} → (A → Bool) → A → A → Bool
known_first known a b = known a || not (known b)

compare_optional-known_first :
    {A : Type 0} (cmp : A → A → Ordering) (a b : Option A) (d : SortDirection) (o₁ o₂ : Ordering)
    → is_le (then_with (then_with (compare_optional cmp a b d) o₁) o₂) ≡ true
    → (is_some a || not (is_some b)) ≡ true
unfolding compare_optional then_with is_le
compare_optional-known_first cmp none (some b) d o₁ o₂ h = cc
compare_optional-known_first cmp none none d o₁ o₂ h = refl
compare_optional-known_first cmp (some a) b d o₁ o₂ h = refl

repository_order-known_first :
    (key : RepositorySortKey) (d : SortDirection) (a b : RepositoryQueueRecord)
    → is_le (repository_order (record { key = key; direction = d }) a b) ≡ true
    → known_first (repository_is_known key) a b ≡ true
unfolding repository_order repository_primary_order
repository_order-known_first RepositorySortKey.queue_priority d a b h =
    compare_optional-known_first _ a.queue_priority b.queue_priority d _ _ h
repository_order-known_first RepositorySortKey.recently_pushed d a b h =
    compare_optional-known_first _ a.pushed_at b.pushed_at d _ _ h
repository_order-known_first RepositorySortKey.latest_default_branch_commit d a b h =
    compare_optional-known_first _ a.default_branch_committed_at b.default_branch_committed_at d _ _
      h
repository_order-known_first _ d a b h = refl

pull_request_order-known_first :
    (key : PullRequestSortKey) (d : SortDirection) (a b : PullRequestQueueRecord)
    → is_le (pull_request_order (record { key = key; direction = d }) a b) ≡ true
    → known_first (pull_request_is_known key) a b ≡ true
unfolding pull_request_order pull_request_primary_order
pull_request_order-known_first PullRequestSortKey.queue_priority d a b h =
    compare_optional-known_first _ a.queue_priority b.queue_priority d _ _ h
pull_request_order-known_first PullRequestSortKey.latest_head_commit d a b h =
    compare_optional-known_first _ a.head_committed_at b.head_committed_at d _ _ h
pull_request_order-known_first PullRequestSortKey.latest_review_activity d a b h =
    compare_optional-known_first _ a.latest_review_at b.latest_review_at d _ _ h
pull_request_order-known_first PullRequestSortKey.ci_health d a b h =
    compare_optional-known_first _ (and_then a.ci_health ci_sort_rank)
      (and_then b.ci_health ci_sort_rank) d _ _ h
pull_request_order-known_first PullRequestSortKey.review_state d a b h =
    compare_optional-known_first _ (and_then a.review_state review_sort_rank)
      (and_then b.review_state review_sort_rank) d _ _ h
pull_request_order-known_first _ d a b h = refl

-- Sorting repositories gives the same repositories, any two of them in the order of the sort, and
-- in either direction those whose value is known before those whose value is unknown.
pub sort_repositories-IsSorted :
    (records : List RepositoryQueueRecord) (sort : RepositorySort)
    → Perm (sort_repositories records sort) records
      × IsSorted (λ a b. is_le (repository_order sort a b)) (sort_repositories records sort)
      × IsSorted (known_first (repository_is_known sort.key)) (sort_repositories records sort)
unfolding sort_repositories
sort_repositories-IsSorted records sort =
    let sorted = sort_with-IsSorted (repository_order-IsComparison sort) records in
    (
      sort_by-perm _ records,
      sorted,
      IsSorted-weaken _ _ (repository_order-known_first sort.key sort.direction) _ sorted,
    )

-- Sorting pull requests gives the same pull requests, any two of them in the order of the sort, and
-- in either direction those whose value is known before those whose value is unknown.
pub sort_pull_requests-IsSorted :
    (records : List PullRequestQueueRecord) (sort : PullRequestSort)
    → Perm (sort_pull_requests records sort) records
      × IsSorted (λ a b. is_le (pull_request_order sort a b)) (sort_pull_requests records sort)
      × IsSorted (known_first (pull_request_is_known sort.key)) (sort_pull_requests records sort)
unfolding sort_pull_requests
sort_pull_requests-IsSorted records sort =
    let sorted = sort_with-IsSorted (pull_request_order-IsComparison sort) records in
    (
      sort_by-perm _ records,
      sorted,
      IsSorted-weaken _ _ (pull_request_order-known_first sort.key sort.direction) _ sorted,
    )
