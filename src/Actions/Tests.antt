-- ===== src/Actions/Tests.antt =====
-- Actions and previews at concrete inputs.
use patchwright.Prelude.{◌≡◌, ◌↔◌, refl, true, ◌∷◌, [], none, some, ok, err, replicate}
use patchwright.Prelude.Text.{
  codes, trim, len, to_ascii_lowercase, contains_text, starts_with, is_whitespace, is_control,
  is_ascii_hexdigit, split_once,
}
use patchwright.Actions.{
  approve, InlineReviewComment, GitHubAction, GitHubActionWire, invalid_field, permissions_for,
}
use patchwright.Actions.Fields.{
  is_component_byte, is_ascii_alphanumeric, validate_repository_component, transpose_map,
  validate_number, is_sha, validate_sha, is_bad_body, validate_body, is_bad_text, validate_text,
}
use patchwright.Actions.Constructors
use patchwright.Actions.Constructors.{insert_positions, new_inline_comment}
use patchwright.Actions.Wire.{deserialize, serialize, read_comment, read_comments}
use patchwright.Actions.Remotes.{
  GitHubActionPreview, GitHubActionPreviewWire, Digests, deserialize_preview, deserialize_identity,
  deserialize_precondition, new_identity, new_precondition, validate_parts, new_preview,
}
use patchwright.Actions.RoundTrips.{deserialize-serialize}
use patchwright.Actions.Previews.{IsAnew, IsComputed, deserialize_preview_iff}
use patchwright.Actions.Paths.{new_inline_comment-absolute}

abbrev remark : InlineReviewComment
remark = record { path = codes "a.rs"; line = 3; body = codes "fix" }

abbrev review_wire : GitHubActionWire
review_wire =
    GitHubActionWire.review 7 (replicate 40 b'A') approve (codes " fine ")
      (record { path = codes " a.rs"; line = 3; body = codes "fix" } ∷ [])

abbrev review_read : GitHubAction
review_read = GitHubAction.review 7 (replicate 40 b'a') approve (codes "fine") (remark ∷ [])

read-review : deserialize review_wire ≡ ok review_read
unfolding deserialize Constructors.review validate_number validate_body is_bad_body insert_positions
    validate_sha is_sha trim len to_ascii_lowercase contains_text is_ascii_hexdigit read_comments
    read_comment new_inline_comment validate_text is_bad_text starts_with is_control is_whitespace
read-review = refl

deserialize-serialize_example : deserialize (serialize review_read) ≡ ok review_read
unfolding starts_with
deserialize-serialize_example = deserialize-serialize review_wire review_read read-review

abbrev constant_digests : Digests
constant_digests = record {
  of_action = λ _. some (replicate 64 b'0');
  of_identity = λ _ _ _. some (replicate 64 b'1');
}

abbrev review_preview : GitHubActionPreview
review_preview = record {
  remote = record { repository_id = 1; installation_id = 2; repository_full_name = codes "o/r" };
  action = review_read;
  precondition = record {
    expected_head_sha = none;
    expected_base_sha = none;
    snapshot_generation = 1;
  };
  payload_sha256 = replicate 64 b'0';
  idempotency_sha256 = replicate 64 b'1';
  required_permissions = codes "pull_requests:write" ∷ codes "metadata:read" ∷ [];
}

abbrev review_preview_wire : GitHubActionPreviewWire
review_preview_wire = record {
  remote = record { repository_id = 1; installation_id = 2; repository_full_name = codes "o/r" };
  action = review_wire;
  precondition = record {
    expected_head_sha = none;
    expected_base_sha = none;
    snapshot_generation = 1;
  };
  payload_sha256 = replicate 64 b'0';
  idempotency_sha256 = replicate 64 b'1';
  required_permissions = codes "pull_requests:write" ∷ codes "metadata:read" ∷ [];
}

deserialize_preview-review :
    deserialize_preview constant_digests review_preview_wire ≡ ok review_preview
unfolding deserialize_preview deserialize_identity deserialize_precondition new_identity
    new_precondition validate_parts validate_repository_component split_once transpose_map
    new_preview permissions_for len is_component_byte is_ascii_alphanumeric
deserialize_preview-review = rw read-review refl

deserialize_preview_iff_example :
    (deserialize_preview constant_digests review_preview_wire ≡ ok review_preview) ↔ (
      IsAnew constant_digests review_preview_wire review_preview
      × IsComputed review_preview_wire review_preview)
deserialize_preview_iff_example =
    deserialize_preview_iff constant_digests review_preview_wire review_preview

abbrev stray : InlineReviewComment
stray = record { path = codes "/etc"; line = 1; body = codes "x" }

new-stray : new_inline_comment (b' ' ∷ b'/' ∷ codes "etc") 1 (codes "x") ≡ ok stray
unfolding new_inline_comment validate_text is_bad_text validate_body is_bad_body trim len
    to_ascii_lowercase contains_text starts_with is_control is_whitespace
new-stray = refl

blank-IsWhitespace : is_whitespace b' ' ≡ true
unfolding is_whitespace
blank-IsWhitespace = refl

new_inline_comment-absolute_example :
    (starts_with stray.path (codes "/") ≡ true)
    × (new_inline_comment stray.path stray.line stray.body ≡ err (invalid_field "inlineComment"))
new_inline_comment-absolute_example =
    new_inline_comment-absolute b' ' (codes "etc") 1 (codes "x") stray blank-IsWhitespace new-stray
