-- ===== src/Actions/Constructors.antt =====
-- The validating constructors of an action and how an action is read
-- (crates/patchwright-core/src/github_actions.rs).
use patchwright.Prelude.{
  ℕ, Bool, true, false, not, ◌&&◌, ◌||◌, List, [], ◌∷◌, Option, none, some, any, ◌==◌, list_eq,
  nat_eq, ok, ◌>>=◌, ◌>>◌, reject_if, if◌then◌else◌, err,
}
use patchwright.Prelude.Text.{Text, codes, starts_with, contains_text}
use patchwright.Actions.{
  ReviewEvent, MergeMethod, InlineReviewComment, GitHubAction, invalid_field,
  duplicate_inline_position,
}
use patchwright.Actions.Fields.{
  Validated, validate_node_id, validate_number, validate_sha, validate_ref, validate_body,
  validate_text, transpose_map,
}

-- `InlineReviewComment::new`.
unfoldable pub new_inline_comment : Text → ℕ → Text → Validated InlineReviewComment
new_inline_comment path line body = do
  reject_if (line == 0 || starts_with path (codes "/") || contains_text path (codes ".."))
      (invalid_field "inlineComment")
  path ← validate_text path 1024 "path"
  body ← validate_body body
  ok (record { path = path; line = line; body = body })

unfoldable pub create_branch : Text → Text → Validated GitHubAction
create_branch branch from_sha = do
  branch ← validate_ref branch
  from_sha ← validate_sha from_sha
  ok (GitHubAction.create_branch branch from_sha)

unfoldable pub push_intent : Text → Text → Validated GitHubAction
push_intent branch head_sha = do
  branch ← validate_ref branch
  head_sha ← validate_sha head_sha
  ok (GitHubAction.push_intent branch head_sha)

unfoldable pub comment : ℕ → Text → Validated GitHubAction
comment issue_number body = do
  issue_number ← validate_number issue_number
  body ← validate_body body
  ok (GitHubAction.comment issue_number body)

abbrev pub same_position : InlineReviewComment → InlineReviewComment → Bool
same_position a b = a.path == b.path && a.line == b.line

-- The loop over `inline_comments` in `review`, with the comments whose positions are in the set.
unfoldable pub insert_positions :
    List InlineReviewComment → List InlineReviewComment → Validated Unit
insert_positions seen [] = ok tt
insert_positions seen (c ∷ comments) =
    let rest = insert_positions (c ∷ seen) comments in
    if any seen (same_position c) then err duplicate_inline_position else rest

unfoldable pub review :
    ℕ → Text → ReviewEvent → Text → List InlineReviewComment → Validated GitHubAction
review pull_request_number expected_head_sha event body inline_comments = do
  pull_request_number ← validate_number pull_request_number
  body ← validate_body body
  insert_positions [] inline_comments
  expected_head_sha ← validate_sha expected_head_sha
  ok (GitHubAction.review pull_request_number expected_head_sha event body inline_comments)

unfoldable pub resolve_review_thread : ℕ → Text → Text → Validated GitHubAction
resolve_review_thread pull_request_number thread_id expected_head_sha = do
  pull_request_number ← validate_number pull_request_number
  thread_id ← validate_node_id thread_id
  expected_head_sha ← validate_sha expected_head_sha
  ok (GitHubAction.resolve_review_thread pull_request_number thread_id expected_head_sha)

unfoldable pub is_some : {A : Type 0} → Option A → Bool
is_some none = false
is_some (some a) = true

-- The test of `check_run` on its status and conclusion.
unfoldable pub is_bad_status : Text → Bool → Bool
is_bad_status status concluded =
    not (status == codes "queued" || status == codes "in_progress" || status == codes "completed")
    || (status == codes "completed" && not concluded)
    || (not (status == codes "completed") && concluded)

unfoldable pub check_run : Text → Text → Text → Option Text → Validated GitHubAction
check_run name head_sha status conclusion = do
  reject_if (is_bad_status status (is_some conclusion)) (invalid_field "status")
  name ← validate_text name 100 "name"
  head_sha ← validate_sha head_sha
  conclusion ← transpose_map (λ value. validate_text value 32 "conclusion") conclusion
  ok (GitHubAction.check_run name head_sha status conclusion)

unfoldable pub draft_pull_request : Text → Text → Text → Text → Text → Text → Validated GitHubAction
draft_pull_request title head base body expected_head_sha expected_base_sha = do
  title ← validate_text title 256 "title"
  head ← validate_ref head
  base ← validate_ref base
  body ← validate_body body
  expected_head_sha ← validate_sha expected_head_sha
  expected_base_sha ← validate_sha expected_base_sha
  ok (GitHubAction.draft_pull_request title head base body expected_head_sha expected_base_sha)

unfoldable pub update_pull_request_branch : ℕ → Text → Validated GitHubAction
update_pull_request_branch pull_request_number expected_head_sha = do
  pull_request_number ← validate_number pull_request_number
  expected_head_sha ← validate_sha expected_head_sha
  ok (GitHubAction.update_pull_request_branch pull_request_number expected_head_sha)

unfoldable pub close_pull_request : ℕ → Text → Validated GitHubAction
close_pull_request pull_request_number expected_head_sha = do
  pull_request_number ← validate_number pull_request_number
  expected_head_sha ← validate_sha expected_head_sha
  ok (GitHubAction.close_pull_request pull_request_number expected_head_sha)

unfoldable pub ready_pull_request : ℕ → Text → Validated GitHubAction
ready_pull_request pull_request_number expected_head_sha = do
  pull_request_number ← validate_number pull_request_number
  expected_head_sha ← validate_sha expected_head_sha
  ok (GitHubAction.ready_pull_request pull_request_number expected_head_sha)

unfoldable pub close_issue : ℕ → Validated GitHubAction
close_issue issue_number = do
  issue_number ← validate_number issue_number
  ok (GitHubAction.close_issue issue_number)

unfoldable pub enqueue_pull_request : ℕ → Text → Validated GitHubAction
enqueue_pull_request pull_request_number expected_head_sha = do
  pull_request_number ← validate_number pull_request_number
  expected_head_sha ← validate_sha expected_head_sha
  ok (GitHubAction.enqueue_pull_request pull_request_number expected_head_sha)

unfoldable pub merge_pull_request : ℕ → Text → MergeMethod → Validated GitHubAction
merge_pull_request pull_request_number expected_head_sha method = do
  pull_request_number ← validate_number pull_request_number
  expected_head_sha ← validate_sha expected_head_sha
  ok (GitHubAction.merge_pull_request pull_request_number expected_head_sha method)
