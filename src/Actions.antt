-- ===== src/Actions.antt =====
-- crates/patchwright-core/src/github_actions.rs: the changes that the engine asks of GitHub. A
-- constructor's arguments are the fields of the variant in the source's order.
pub mod Fields
pub mod Constructors
pub mod Wire
pub mod Comments
pub mod Remotes
pub mod Settling
pub mod RoundTrips
pub mod Previews
pub mod Paths
pub mod Gating
mod Tests
use Prim.Native.String.{String}
use patchwright.Prelude.{ℕ, List, [], ◌∷◌, Option, none, some}
use patchwright.Prelude.Text.{Text, codes}
use patchwright.Policy.Capabilities
use patchwright.Policy.Capabilities.{Capability}

pub data ReviewEvent : Type 0 where
  approve request_changes comment pending : ReviewEvent

pub data MergeMethod : Type 0 where
  merge squash rebase : MergeMethod

pub record InlineReviewComment : Type 0 where
  pub path : Text
  pub line : ℕ
  pub body : Text

pub data GitHubActionError : Type 0 where
  invalid_field : String → GitHubActionError
  duplicate_inline_position serialization : GitHubActionError

pub data GitHubAction : Type 0 where
  create_branch : (branch from_sha : Text) → GitHubAction
  push_intent : (branch head_sha : Text) → GitHubAction
  comment : (issue_number : ℕ) (body : Text) → GitHubAction
  review :
      (pull_request_number : ℕ) (expected_head_sha : Text) (event : ReviewEvent) (body : Text)
      (inline_comments : List InlineReviewComment)
      → GitHubAction
  resolve_review_thread :
      (pull_request_number : ℕ) (thread_id expected_head_sha : Text) → GitHubAction
  check_run : (name head_sha status : Text) (conclusion : Option Text) → GitHubAction
  draft_pull_request :
      (title head base body expected_head_sha expected_base_sha : Text) → GitHubAction
  update_pull_request_branch ready_pull_request close_pull_request enqueue_pull_request :
      (pull_request_number : ℕ) (expected_head_sha : Text) → GitHubAction
  close_issue : (issue_number : ℕ) → GitHubAction
  merge_pull_request :
      (pull_request_number : ℕ) (expected_head_sha : Text) (method : MergeMethod) → GitHubAction

-- What a JSON object of an inline comment holds.
pub record InlineReviewCommentWire : Type 0 where
  pub path : Text
  pub line : ℕ
  pub body : Text

-- What a JSON object of an action holds: the fields of the variant that its `kind` names.
pub data GitHubActionWire : Type 0 where
  create_branch : (branch from_sha : Text) → GitHubActionWire
  push_intent : (branch head_sha : Text) → GitHubActionWire
  comment : (issue_number : ℕ) (body : Text) → GitHubActionWire
  review :
      (pull_request_number : ℕ) (expected_head_sha : Text) (event : ReviewEvent) (body : Text)
      (inline_comments : List InlineReviewCommentWire)
      → GitHubActionWire
  resolve_review_thread :
      (pull_request_number : ℕ) (thread_id expected_head_sha : Text) → GitHubActionWire
  check_run : (name head_sha status : Text) (conclusion : Option Text) → GitHubActionWire
  draft_pull_request :
      (title head base body expected_head_sha expected_base_sha : Text) → GitHubActionWire
  update_pull_request_branch ready_pull_request close_pull_request enqueue_pull_request :
      (pull_request_number : ℕ) (expected_head_sha : Text) → GitHubActionWire
  close_issue : (issue_number : ℕ) → GitHubActionWire
  merge_pull_request :
      (pull_request_number : ℕ) (expected_head_sha : Text) (method : MergeMethod) → GitHubActionWire

-- `GitHubAction::capability`.
unfoldable pub capability : GitHubAction → Capability
capability (create_branch _ _) = Capability.create_branch
capability (push_intent _ _) = Capability.push_branch
capability (GitHubAction.comment _ _) = Capability.post_comment
capability (review _ _ _ _ _) = Capability.post_review
capability (resolve_review_thread _ _ _) = Capability.resolve_thread
capability (check_run _ _ _ _) = Capability.create_check_run
capability (draft_pull_request _ _ _ _ _ _) = Capability.create_pull_request
capability (update_pull_request_branch _ _) = Capability.update_pull_request_branch
capability (ready_pull_request _ _) = Capability.ready_pull_request
capability (close_pull_request _ _) = Capability.close_pull_request
capability (close_issue _) = Capability.close_issue
capability (enqueue_pull_request _ _) = Capability.enqueue_pull_request
capability (merge_pull_request _ _ _) = Capability.merge_pull_request

-- `GitHubAction::action_kind`.
unfoldable pub action_kind : GitHubAction → Text
action_kind action = Capabilities.action_kind (capability action)

-- `GitHubAction::pull_request_number`.
unfoldable pub pull_request_number : GitHubAction → Option ℕ
pull_request_number (review number _ _ _ _) = some number
pull_request_number (resolve_review_thread number _ _) = some number
pull_request_number (update_pull_request_branch number _) = some number
pull_request_number (close_pull_request number _) = some number
pull_request_number (ready_pull_request number _) = some number
pull_request_number (enqueue_pull_request number _) = some number
pull_request_number (merge_pull_request number _ _) = some number
pull_request_number (GitHubAction.comment number _) = some number
pull_request_number (close_issue number) = some number
pull_request_number _ = none

-- `GitHubAction::branch`.
unfoldable pub branch : GitHubAction → Option Text
branch (create_branch name _) = some name
branch (push_intent name _) = some name
branch (draft_pull_request _ head _ _ _ _) = some head
branch _ = none

-- `GitHubAction::expected_head_sha`.
unfoldable pub expected_head_sha : GitHubAction → Option Text
expected_head_sha (review _ sha _ _ _) = some sha
expected_head_sha (update_pull_request_branch _ sha) = some sha
expected_head_sha (resolve_review_thread _ _ sha) = some sha
expected_head_sha (draft_pull_request _ _ _ _ sha _) = some sha
expected_head_sha (ready_pull_request _ sha) = some sha
expected_head_sha (close_pull_request _ sha) = some sha
expected_head_sha (enqueue_pull_request _ sha) = some sha
expected_head_sha (merge_pull_request _ sha _) = some sha
expected_head_sha _ = none

-- `GitHubAction::expected_base_sha`.
unfoldable pub expected_base_sha : GitHubAction → Option Text
expected_base_sha (create_branch _ from_sha) = some from_sha
expected_base_sha (draft_pull_request _ _ _ _ _ sha) = some sha
expected_base_sha _ = none

-- `permissions_for`.
unfoldable pub permissions_for : GitHubAction → List Text
permissions_for (create_branch _ _) = codes "contents:write" ∷ codes "metadata:read" ∷ []
permissions_for (push_intent _ _) = codes "contents:write" ∷ codes "metadata:read" ∷ []
permissions_for (GitHubAction.comment _ _) = codes "issues:write" ∷ codes "metadata:read" ∷ []
permissions_for (close_issue _) = codes "issues:write" ∷ codes "metadata:read" ∷ []
permissions_for (check_run _ _ _ _) = codes "checks:write" ∷ codes "metadata:read" ∷ []
permissions_for _ = codes "pull_requests:write" ∷ codes "metadata:read" ∷ []
