-- ===== src/Contract/Source.antt =====
-- Task sources of crates/patchwright-core/src/contract.rs: where a task comes from.
use patchwright.Prelude.{ℕ, Option, none, some, ok, ◌>>◌}
use patchwright.Prelude.Text.{Text}
use patchwright.Contract.Fields.{Validated, validate_github_item, validate_ref, validate_git_sha}

-- `GitHubIssueSource`, and its input, which has the same fields.
pub record GitHubIssueSource : Type 0 where
  pub repository_id : ℕ
  pub repository_full_name : Text
  pub number : ℕ
  pub html_url : Text
  pub snapshot_at : ℕ

-- `GitHubPullRequestSource`, and its input, which has the same fields.
pub record GitHubPullRequestSource : Type 0 where
  pub repository_id : ℕ
  pub repository_full_name : Text
  pub number : ℕ
  pub html_url : Text
  pub snapshot_at : ℕ
  pub base_ref : Text
  pub base_sha : Text
  pub head_ref : Text
  pub head_sha : Text

pub data TaskSource : Type 0 where
  local_request : TaskSource
  github_issue : GitHubIssueSource → TaskSource
  github_pull_request : GitHubPullRequestSource → TaskSource

-- `TaskSource::github_issue`.
unfoldable pub new_github_issue : GitHubIssueSource → Validated TaskSource
new_github_issue input = do
  validate_github_item input.repository_id input.repository_full_name input.number input.html_url
  ok (github_issue input)

-- `TaskSource::github_pull_request`.
unfoldable pub new_github_pull_request : GitHubPullRequestSource → Validated TaskSource
new_github_pull_request input = do
  validate_github_item input.repository_id input.repository_full_name input.number input.html_url
  validate_ref input.base_ref "baseRef"
  validate_ref input.head_ref "headRef"
  validate_git_sha input.base_sha "baseSha"
  validate_git_sha input.head_sha "headSha"
  ok (github_pull_request input)

unfoldable pub revalidate_task_source : TaskSource → Validated TaskSource
revalidate_task_source local_request = ok local_request
revalidate_task_source (github_issue source) = new_github_issue source
revalidate_task_source (github_pull_request source) = new_github_pull_request source

-- `TaskSource::repository_id`.
unfoldable pub repository_id : TaskSource → Option ℕ
repository_id local_request = none
repository_id (github_issue source) = some source.repository_id
repository_id (github_pull_request source) = some source.repository_id

-- `TaskSource::item_number`.
unfoldable pub item_number : TaskSource → Option ℕ
item_number local_request = none
item_number (github_issue source) = some source.number
item_number (github_pull_request source) = some source.number

-- `TaskSource::repository_full_name`.
unfoldable pub repository_full_name : TaskSource → Option Text
repository_full_name local_request = none
repository_full_name (github_issue source) = some source.repository_full_name
repository_full_name (github_pull_request source) = some source.repository_full_name

-- `TaskSource::head_sha`.
unfoldable pub head_sha : TaskSource → Option Text
head_sha (github_pull_request source) = some source.head_sha
head_sha _ = none
