-- ===== src/Sorting/Orders.antt =====
-- Every order of crates/patchwright-core/src/sorting.rs is consistent.
use Prim.Native.Nat.{Ordering}
use patchwright.Prelude.{◌≡◌, refl, true, Option, none, some}
use patchwright.Prelude.Orders.{
  IsComparison, is_le, reverse, reverse-IsComparison, flip-IsComparison, on-IsComparison,
  then_with-IsComparison, compare-IsComparison, compare_integers-IsComparison,
  compare_texts-IsComparison,
}
use patchwright.Sorting.{
  SortDirection, ascending, descending, apply_direction, compare_value, compare_optional, and_then,
  ci_sort_rank, review_sort_rank, saturating_add, RepositorySort, RepositorySortKey,
  repository_primary_order, repository_order, PullRequestSort, PullRequestSortKey,
  pull_request_primary_order, pull_request_order,
}

module _ {A : Type 0} {cmp : A → A → Ordering} (h : IsComparison cmp) where
  apply_direction-IsComparison :
      (d : SortDirection) → IsComparison (λ a b. apply_direction (cmp a b) d)
  unfolding apply_direction
  apply_direction-IsComparison ascending = h
  apply_direction-IsComparison descending = reverse-IsComparison h

  compare_value-IsComparison : (d : SortDirection) → IsComparison (λ a b. compare_value cmp a b d)
  unfolding compare_value
  compare_value-IsComparison d = apply_direction-IsComparison d

  compare_optional-IsComparison :
      (d : SortDirection) → IsComparison (λ a b. compare_optional cmp a b d)
  unfolding compare_optional is_le reverse
  compare_optional-IsComparison d = record { swapped = swaps; trans = transits }
    where
      directed : IsComparison (λ a b. apply_direction (cmp a b) d)
      directed = apply_direction-IsComparison d

      swaps : (a b : Option A) → compare_optional cmp b a d ≡ reverse (compare_optional cmp a b d)
      swaps (some a) (some b) = directed.swapped a b
      swaps (some a) none = refl
      swaps none (some b) = refl
      swaps none none = refl

      transits :
          (a b c : Option A)
          → is_le (compare_optional cmp a b d) ≡ true
          → is_le (compare_optional cmp b c d) ≡ true
          → is_le (compare_optional cmp a c d) ≡ true
      transits (some a) (some b) (some c) h k = directed.trans a b c h k
      transits (some a) (some b) none h k = refl
      transits (some a) none (some c) h k = cc
      transits (some a) none none h k = refl
      transits none (some b) c h k = cc
      transits none none c h k = k

repository_primary_order-IsComparison :
    (key : RepositorySortKey) (d : SortDirection) → IsComparison (repository_primary_order key d)
unfolding repository_primary_order
repository_primary_order-IsComparison RepositorySortKey.queue_priority d =
    on-IsComparison (λ r. r.queue_priority)
      (compare_optional-IsComparison compare_integers-IsComparison d)
repository_primary_order-IsComparison RepositorySortKey.recently_updated d =
    on-IsComparison (λ r. r.updated_at) (compare_value-IsComparison compare-IsComparison d)
repository_primary_order-IsComparison RepositorySortKey.recently_pushed d =
    on-IsComparison (λ r. r.pushed_at) (compare_optional-IsComparison compare-IsComparison d)
repository_primary_order-IsComparison RepositorySortKey.latest_default_branch_commit d =
    on-IsComparison (λ r. r.default_branch_committed_at)
      (compare_optional-IsComparison compare-IsComparison d)
repository_primary_order-IsComparison RepositorySortKey.open_pull_request_count d =
    on-IsComparison (λ r. r.open_pull_request_count)
      (compare_value-IsComparison compare-IsComparison d)
repository_primary_order-IsComparison RepositorySortKey.failing_check_count d =
    on-IsComparison (λ r. r.failing_check_count) (compare_value-IsComparison compare-IsComparison d)
repository_primary_order-IsComparison RepositorySortKey.name d =
    on-IsComparison (λ r. r.full_name) (compare_value-IsComparison compare_texts-IsComparison d)

pub repository_order-IsComparison : (sort : RepositorySort) → IsComparison (repository_order sort)
unfolding repository_order
repository_order-IsComparison sort =
    then_with-IsComparison
      (then_with-IsComparison (repository_primary_order-IsComparison sort.key sort.direction)
        (on-IsComparison (λ r. r.full_name) compare_texts-IsComparison))
      (on-IsComparison (λ r. r.id) compare-IsComparison)

pull_request_primary_order-IsComparison :
    (key : PullRequestSortKey) (d : SortDirection) → IsComparison (pull_request_primary_order key d)
unfolding pull_request_primary_order
pull_request_primary_order-IsComparison PullRequestSortKey.queue_priority d =
    on-IsComparison (λ r. r.queue_priority)
      (compare_optional-IsComparison compare_integers-IsComparison d)
pull_request_primary_order-IsComparison PullRequestSortKey.recently_updated d =
    on-IsComparison (λ r. r.updated_at) (compare_value-IsComparison compare-IsComparison d)
pull_request_primary_order-IsComparison PullRequestSortKey.latest_head_commit d =
    on-IsComparison (λ r. r.head_committed_at)
      (compare_optional-IsComparison compare-IsComparison d)
pull_request_primary_order-IsComparison PullRequestSortKey.latest_review_activity d =
    on-IsComparison (λ r. r.latest_review_at) (compare_optional-IsComparison compare-IsComparison d)
pull_request_primary_order-IsComparison PullRequestSortKey.ci_health d =
    on-IsComparison (λ r. and_then r.ci_health ci_sort_rank)
      (compare_optional-IsComparison compare-IsComparison d)
pull_request_primary_order-IsComparison PullRequestSortKey.review_state d =
    on-IsComparison (λ r. and_then r.review_state review_sort_rank)
      (compare_optional-IsComparison compare-IsComparison d)
pull_request_primary_order-IsComparison PullRequestSortKey.created_newest d =
    on-IsComparison (λ r. r.created_at) (compare_value-IsComparison compare-IsComparison d)
pull_request_primary_order-IsComparison PullRequestSortKey.created_oldest d =
    on-IsComparison (λ r. r.created_at)
      (flip-IsComparison (compare_value-IsComparison compare-IsComparison d))
pull_request_primary_order-IsComparison PullRequestSortKey.change_size d =
    on-IsComparison (λ r. saturating_add r.additions r.deletions)
      (compare_value-IsComparison compare-IsComparison d)
pull_request_primary_order-IsComparison PullRequestSortKey.number d =
    on-IsComparison (λ r. r.number) (compare_value-IsComparison compare-IsComparison d)

pub pull_request_order-IsComparison :
    (sort : PullRequestSort) → IsComparison (pull_request_order sort)
unfolding pull_request_order
pull_request_order-IsComparison sort =
    then_with-IsComparison
      (then_with-IsComparison (pull_request_primary_order-IsComparison sort.key sort.direction)
        (on-IsComparison (λ r. r.number) compare-IsComparison))
      (on-IsComparison (λ r. r.id) compare-IsComparison)
