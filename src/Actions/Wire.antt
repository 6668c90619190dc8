-- ===== src/Actions/Wire.antt =====
-- How an action is read and written (crates/patchwright-core/src/github_actions.rs).
use patchwright.Prelude.{List, [], ◌∷◌, map, ok, ◌>>=◌}
use patchwright.Actions.{
  InlineReviewComment, InlineReviewCommentWire, GitHubAction, GitHubActionWire,
}
use patchwright.Actions.Fields.{Validated}
use patchwright.Actions.Constructors.{
  check_run, close_issue, close_pull_request, comment, create_branch, draft_pull_request,
  enqueue_pull_request, merge_pull_request, push_intent, ready_pull_request, resolve_review_thread,
  review, update_pull_request_branch, new_inline_comment,
}

-- `InlineReviewComment::deserialize`, from the wire on.
unfoldable pub read_comment : InlineReviewCommentWire → Validated InlineReviewComment
read_comment wire = new_inline_comment wire.path wire.line wire.body

-- How the list of inline comments is read: the first comment that is refused ends the reading.
unfoldable pub read_comments : List InlineReviewCommentWire → Validated (List InlineReviewComment)
read_comments [] = ok []
read_comments (wire ∷ wires) = do
  comment ← read_comment wire
  comments ← read_comments wires
  ok (comment ∷ comments)

-- What the derived `Serialize` writes of an inline comment.
abbrev pub write_comment : InlineReviewComment → InlineReviewCommentWire
write_comment c = record { path = c.path; line = c.line; body = c.body }

-- `GitHubAction::deserialize`, its inline comments read first, as the wire's own `deserialize` reads
-- them.
unfoldable pub deserialize : GitHubActionWire → Validated GitHubAction
deserialize (GitHubActionWire.create_branch branch sha) = create_branch branch sha
deserialize (GitHubActionWire.push_intent branch sha) = push_intent branch sha
deserialize (GitHubActionWire.comment number body) = comment number body
deserialize (GitHubActionWire.review number sha event body wires) = do
  comments ← read_comments wires
  review number sha event body comments
deserialize (GitHubActionWire.resolve_review_thread number thread sha) =
    resolve_review_thread number thread sha
deserialize (GitHubActionWire.check_run name sha status conclusion) =
    check_run name sha status conclusion
deserialize (GitHubActionWire.draft_pull_request title head base body head_sha base_sha) =
    draft_pull_request title head base body head_sha base_sha
deserialize (GitHubActionWire.update_pull_request_branch number sha) =
    update_pull_request_branch number sha
deserialize (GitHubActionWire.ready_pull_request number sha) = ready_pull_request number sha
deserialize (GitHubActionWire.close_pull_request number sha) = close_pull_request number sha
deserialize (GitHubActionWire.enqueue_pull_request number sha) = enqueue_pull_request number sha
deserialize (GitHubActionWire.close_issue number) = close_issue number
deserialize (GitHubActionWire.merge_pull_request number sha method) =
    merge_pull_request number sha method

-- What the derived `Serialize` writes of an action.
unfoldable pub serialize : GitHubAction → GitHubActionWire
serialize (GitHubAction.create_branch branch sha) = GitHubActionWire.create_branch branch sha
serialize (GitHubAction.push_intent branch sha) = GitHubActionWire.push_intent branch sha
serialize (GitHubAction.comment number body) = GitHubActionWire.comment number body
serialize (GitHubAction.review number sha event body comments) =
    GitHubActionWire.review number sha event body (map write_comment comments)
serialize (GitHubAction.resolve_review_thread number thread sha) =
    GitHubActionWire.resolve_review_thread number thread sha
serialize (GitHubAction.check_run name sha status conclusion) =
    GitHubActionWire.check_run name sha status conclusion
serialize (GitHubAction.draft_pull_request title head base body head_sha base_sha) =
    GitHubActionWire.draft_pull_request title head base body head_sha base_sha
serialize (GitHubAction.update_pull_request_branch number sha) =
    GitHubActionWire.update_pull_request_branch number sha
serialize (GitHubAction.ready_pull_request number sha) =
    GitHubActionWire.ready_pull_request number sha
serialize (GitHubAction.close_pull_request number sha) =
    GitHubActionWire.close_pull_request number sha
serialize (GitHubAction.enqueue_pull_request number sha) =
    GitHubActionWire.enqueue_pull_request number sha
serialize (GitHubAction.close_issue number) = GitHubActionWire.close_issue number
serialize (GitHubAction.merge_pull_request number sha method) =
    GitHubActionWire.merge_pull_request number sha method
