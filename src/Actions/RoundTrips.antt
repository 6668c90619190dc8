-- ===== src/Actions/RoundTrips.antt =====
-- An action that was written is read back as it was (crates/patchwright-core/src/github_actions.rs).
use patchwright.Prelude.{
  ℕ, ◌≡◌, refl, List, Option, none, some, ok, reject_if, >>=-eq-ok, ◌>>=◌, [], ok-injective, subst,
  any, map, err, Bool-cases, inl, inr, if◌then◌else◌,
}
use patchwright.Prelude.Text.{Text}
use patchwright.Actions.{
  ReviewEvent, InlineReviewComment, GitHubAction, GitHubActionWire, invalid_field,
}
use patchwright.Actions.Fields.{
  Validated, validate_node_id, validate_number, validate_sha, validate_ref, validate_body,
  validate_text, transpose_map,
}
use patchwright.Actions.Constructors
use patchwright.Actions.Constructors.{insert_positions, is_some, is_bad_status}
use patchwright.Actions.Wire.{deserialize, serialize, read_comments, write_comment}
use patchwright.Actions.Comments.{is_absolute, refused, read_comments-map}
use patchwright.Prelude.Settling.{Yields, ok-Yields, >>=-Yields, >>-Yields}
use patchwright.Actions.Settling.{
  validate_node_id-Settles, validate_number-Settles, validate_ref-Settles, validate_body-Settles,
  validate_text-Settles, validate_sha-Settles, transpose_map-Settles,
}

abbrev reread : GitHubAction → Validated GitHubAction
reread action = deserialize (serialize action)

-- The inline comments of an action.
abbrev pub comments_of : GitHubAction → List InlineReviewComment
comments_of (GitHubAction.review _ _ _ _ comments) = comments
comments_of _ = []

-- An action is read again as it is, unless the path of one of its comments is absolute.
abbrev IsReread : GitHubAction → Type 0
IsReread action =
    reread action ≡ (if any (comments_of action) is_absolute then refused else ok action)

-- The actions that are made of a reference and a commit.
with_ref :
    (make : Text → Text → GitHubAction) (ref sha : Text)
    → ((r s : Text)
        → reread (make r s) ≡ (validate_ref r >>= λ x. validate_sha s >>= λ y. ok (make x y)))
    → ((r s : Text) → comments_of (make r s) ≡ [])
    → Yields IsReread (validate_ref ref >>= λ x. validate_sha sha >>= λ y. ok (make x y))
with_ref make ref sha steps bare =
    >>=-Yields IsReread validate_ref ref _ (validate_ref-Settles ref) (λ r er.
      >>=-Yields IsReread validate_sha sha _ (validate_sha-Settles sha)
        (λ s es. ok-Yields IsReread (make r s) (rw (steps r s, bare r s, er, es) refl)))

-- The actions that are made of a number and a commit.
with_number :
    (make : ℕ → Text → GitHubAction) (number : ℕ) (sha : Text)
    → ((n : ℕ) (s : Text)
        → reread (make n s) ≡ (validate_number n >>= λ x. validate_sha s >>= λ y. ok (make x y)))
    → ((n : ℕ) (s : Text) → comments_of (make n s) ≡ [])
    → Yields IsReread (validate_number number >>= λ x. validate_sha sha >>= λ y. ok (make x y))
with_number make number sha steps bare =
    >>=-Yields IsReread validate_number number _ (validate_number-Settles number) (λ n en.
      >>=-Yields IsReread validate_sha sha _ (validate_sha-Settles sha)
        (λ s es. ok-Yields IsReread (make n s) (rw (steps n s, bare n s, en, es) refl)))

comment-Yields : (number : ℕ) (body : Text) → Yields IsReread (Constructors.comment number body)
unfolding Constructors.comment deserialize serialize
comment-Yields number body =
    >>=-Yields IsReread validate_number number _ (validate_number-Settles number) (λ n en.
      >>=-Yields IsReread validate_body body _ (validate_body-Settles body)
        (λ b eb. ok-Yields IsReread (GitHubAction.comment n b) (rw (en, eb) refl)))

-- The end of reading a review, by whether the path of a comment is absolute.
review_read :
    (number : ℕ) (sha : Text) (event : ReviewEvent) (body : Text)
    (comments : List InlineReviewComment)
    → read_comments (map write_comment comments)
      ≡ (if any comments is_absolute then refused else ok comments)
    → validate_number number ≡ ok number
    → validate_body body ≡ ok body
    → insert_positions [] comments ≡ ok tt
    → validate_sha sha ≡ ok sha
    → IsReread (GitHubAction.review number sha event body comments)
unfolding Constructors.review deserialize serialize
review_read number sha event body comments ew en eb ec es =
    elim (Bool-cases (any comments is_absolute)) [
      | inl absolute ↦ rw (ew, absolute) refl
      | inr relative ↦ rw (ew, relative, en, eb, ec, es) refl
    ]

review-Yields :
    (number : ℕ) (sha : Text) (event : ReviewEvent) (body : Text)
    (comments : List InlineReviewComment)
    → read_comments (map write_comment comments)
      ≡ (if any comments is_absolute then refused else ok comments)
    → Yields IsReread (Constructors.review number sha event body comments)
unfolding Constructors.review
review-Yields number sha event body comments ew =
    >>=-Yields IsReread validate_number number _ (validate_number-Settles number) (λ n en.
      >>=-Yields IsReread validate_body body _ (validate_body-Settles body) (λ b eb.
        >>-Yields IsReread (insert_positions [] comments) _ (λ ec.
          >>=-Yields IsReread validate_sha sha _ (validate_sha-Settles sha) (λ s es.
            ok-Yields IsReread (GitHubAction.review n s event b comments)
              (review_read n s event b comments ew en eb ec es)))))

resolve_review_thread-Yields :
    (number : ℕ) (thread sha : Text)
    → Yields IsReread (Constructors.resolve_review_thread number thread sha)
unfolding Constructors.resolve_review_thread deserialize serialize
resolve_review_thread-Yields number thread sha =
    >>=-Yields IsReread validate_number number _ (validate_number-Settles number) (λ n en.
      >>=-Yields IsReread validate_node_id thread _ (validate_node_id-Settles thread) (λ t et.
        >>=-Yields IsReread validate_sha sha _ (validate_sha-Settles sha) (λ s es.
          ok-Yields IsReread (GitHubAction.resolve_review_thread n t s) (rw (en, et, es) refl))))

draft_pull_request-Yields :
    (title head base body head_sha base_sha : Text)
    → Yields IsReread (Constructors.draft_pull_request title head base body head_sha base_sha)
unfolding Constructors.draft_pull_request deserialize serialize
draft_pull_request-Yields title head base body head_sha base_sha =
    >>=-Yields IsReread (λ v. validate_text v 256 "title") title _
      (validate_text-Settles title 256 "title")
      (λ t et. >>=-Yields IsReread validate_ref head _ (validate_ref-Settles head) (λ h eh.
        >>=-Yields IsReread validate_ref base _ (validate_ref-Settles base) (λ b eb.
          >>=-Yields IsReread validate_body body _ (validate_body-Settles body) (λ d ed.
            >>=-Yields IsReread validate_sha head_sha _ (validate_sha-Settles head_sha) (λ x ex.
              >>=-Yields IsReread validate_sha base_sha _ (validate_sha-Settles base_sha) (λ y ey.
                ok-Yields IsReread (GitHubAction.draft_pull_request t h b d x y)
                  (rw (et, eh, eb, ed, ex, ey) refl)))))))

-- The conclusion's validator of `check_run`.
abbrev conclude : Option Text → Validated (Option Text)
conclude = transpose_map (λ value. validate_text value 32 "conclusion")

is_some-conclude :
    (value result : Option Text) → conclude value ≡ ok result → is_some result ≡ is_some value
unfolding transpose_map is_some
is_some-conclude none result e = rw (← ok-injective e) refl
is_some-conclude (some value) result e =
    let (t, given, same) =
      >>=-eq-ok (validate_text value 32 "conclusion") (λ (t : Text). ok (some t)) e in
    rw (← ok-injective same) refl

-- The end of `check_run`, by whether there was a conclusion.
conclusion-Yields :
    (name sha status : Text) (conclusion : Option Text)
    → reject_if (is_bad_status status (is_some conclusion)) (invalid_field "status") ≡ ok tt
    → validate_text name 100 "name" ≡ ok name
    → validate_sha sha ≡ ok sha
    → Yields IsReread (do
      conclusion ← conclude conclusion
      ok (GitHubAction.check_run name sha status conclusion))
unfolding Constructors.check_run deserialize serialize
conclusion-Yields name sha status conclusion eb en es = record {
  yielded = λ a e.
      let (c, given, same) =
        >>=-eq-ok (conclude conclusion)
          (λ (c : Option Text). ok (GitHubAction.check_run name sha status c)) e in
      let again =
        (transpose_map-Settles (λ value. validate_text value 32 "conclusion") conclusion
            (λ value. validate_text-Settles value 32 "conclusion")).settled
          c given in
      subst IsReread (ok-injective same)
        (rw (is_some-conclude conclusion c given, eb, en, es, again) refl);
}

check_run-Yields :
    (name sha status : Text) (conclusion : Option Text)
    → Yields IsReread (Constructors.check_run name sha status conclusion)
unfolding Constructors.check_run
check_run-Yields name sha status conclusion =
    >>-Yields IsReread
      (reject_if (is_bad_status status (is_some conclusion)) (invalid_field "status")) _
      (λ eb.
        >>=-Yields IsReread (λ v. validate_text v 100 "name") name _
          (validate_text-Settles name 100 "name")
          (λ n en.
            >>=-Yields IsReread validate_sha sha _ (validate_sha-Settles sha)
              (λ s es. conclusion-Yields n s status conclusion eb en es)))

close_issue-Yields : (number : ℕ) → Yields IsReread (Constructors.close_issue number)
unfolding Constructors.close_issue deserialize serialize
close_issue-Yields number =
    >>=-Yields IsReread validate_number number _ (validate_number-Settles number)
      (λ n en. ok-Yields IsReread (GitHubAction.close_issue n) (rw en refl))

deserialize-Yields : (wire : GitHubActionWire) → Yields IsReread (deserialize wire)
unfolding deserialize serialize Constructors.create_branch Constructors.push_intent
    Constructors.update_pull_request_branch Constructors.ready_pull_request
    Constructors.close_pull_request Constructors.enqueue_pull_request
    Constructors.merge_pull_request
deserialize-Yields (GitHubActionWire.create_branch branch sha) =
    with_ref GitHubAction.create_branch branch sha (λ r s. refl) (λ r s. refl)
deserialize-Yields (GitHubActionWire.push_intent branch sha) =
    with_ref GitHubAction.push_intent branch sha (λ r s. refl) (λ r s. refl)
deserialize-Yields (GitHubActionWire.comment number body) = comment-Yields number body
deserialize-Yields (GitHubActionWire.review number sha event body wires) = record {
  yielded = λ a e.
      let (cs, ecs, e) = >>=-eq-ok (read_comments wires) _ e in
      (review-Yields number sha event body cs (read_comments-map wires cs ecs)).yielded a e;
}
deserialize-Yields (GitHubActionWire.resolve_review_thread number thread sha) =
    resolve_review_thread-Yields number thread sha
deserialize-Yields (GitHubActionWire.check_run name sha status conclusion) =
    check_run-Yields name sha status conclusion
deserialize-Yields (GitHubActionWire.draft_pull_request title head base body head_sha base_sha) =
    draft_pull_request-Yields title head base body head_sha base_sha
deserialize-Yields (GitHubActionWire.update_pull_request_branch number sha) =
    with_number GitHubAction.update_pull_request_branch number sha (λ n s. refl) (λ n s. refl)
deserialize-Yields (GitHubActionWire.ready_pull_request number sha) =
    with_number GitHubAction.ready_pull_request number sha (λ n s. refl) (λ n s. refl)
deserialize-Yields (GitHubActionWire.close_pull_request number sha) =
    with_number GitHubAction.close_pull_request number sha (λ n s. refl) (λ n s. refl)
deserialize-Yields (GitHubActionWire.enqueue_pull_request number sha) =
    with_number GitHubAction.enqueue_pull_request number sha (λ n s. refl) (λ n s. refl)
deserialize-Yields (GitHubActionWire.close_issue number) = close_issue-Yields number
deserialize-Yields (GitHubActionWire.merge_pull_request number sha method) =
    with_number (λ n s. GitHubAction.merge_pull_request n s method) number sha (λ n s. refl)
      (λ n s. refl)

-- An action that was read is written in a form that is read back as the same action, unless it is a
-- review and the path that one of its inline comments keeps begins with a slash: what was written is
-- then refused, for its inline comment.
pub deserialize-serialize :
    (wire : GitHubActionWire) (action : GitHubAction)
    → deserialize wire ≡ ok action
    → deserialize (serialize action) ≡ (
        if any (comments_of action) is_absolute
        then err (invalid_field "inlineComment")
        else ok action)
deserialize-serialize wire action e = (deserialize-Yields wire).yielded action e
