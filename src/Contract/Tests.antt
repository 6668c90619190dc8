-- ===== src/Contract/Tests.antt =====
-- Task contracts at concrete inputs.
use patchwright.Prelude.{◌≡◌, refl, ◌∷◌, [], some, ok, replicate}
use patchwright.Prelude.Text.{
  codes, trim, len, starts_with, split_once, is_whitespace, is_control, is_ascii_hexdigit,
}
use patchwright.Policy.Capabilities.{merge_pull_request}
use patchwright.Contract.Fields.{
  nonempty, nonzero, is_absolute, is_git_sha, validate_git_sha, is_sha256, validate_sha256,
  is_space_or_control, is_repository_name, validate_repository_name, validate_ref, is_https_url,
  validate_https_url, validate_github_item, validate_optional_git_sha,
}
use patchwright.Contract.Source.{
  GitHubPullRequestSource, github_pull_request, new_github_pull_request, revalidate_task_source,
}
use patchwright.Contract.Parts.{
  new_digest, new_command, moderate, segments, is_bad_path, new_sensitive_path, collect_all,
  collect_set,
}
use patchwright.Contract.Tasks.{
  TaskContract, TaskContractWire, is_bad_criteria, is_unbound, is_bad_dependencies, try_from,
  draft_of, deserialize, serialize,
}
use patchwright.Contract.RoundTrips.{deserialize_lem}
use patchwright.Contract.Consistency.{IsConsistent, try_from-IsConsistent}

abbrev pub pull_request_source : GitHubPullRequestSource
pull_request_source = record {
  repository_id = 1;
  repository_full_name = codes "o/r";
  number = 7;
  html_url = codes "https://h/7";
  snapshot_at = 5;
  base_ref = codes "main";
  base_sha = replicate 40 b'b';
  head_ref = codes "fix";
  head_sha = replicate 40 b'a';
}

abbrev contract_wire : TaskContractWire
contract_wire = record {
  version = 1;
  task_id = 3;
  source = github_pull_request pull_request_source;
  repository_binding_id = 4;
  goal = codes " fix ";
  acceptance_criteria = codes "done " ∷ [];
  base_sha = some (replicate 40 b'b');
  head_sha = some (replicate 40 b'a');
  source_sha256 = replicate 64 b'0';
  repository_sha256 = replicate 64 b'1';
  instruction_digests =
      record { source = codes "A"; sha256 = replicate 64 b'2'; precedence = 1 } ∷ [];
  verification_commands = record { program = codes "make"; args = codes "t" ∷ [] } ∷ [];
  required_capabilities = merge_pull_request ∷ [];
  risk = moderate;
  sensitive_paths = record { path = codes "a/b"; reason = codes "keys" } ∷ [];
  dependencies = 8 ∷ 9 ∷ [];
}

abbrev pub contract_read : TaskContract
contract_read = record {
  version = 1;
  task_id = 3;
  source = github_pull_request pull_request_source;
  repository_binding_id = 4;
  goal = codes "fix";
  acceptance_criteria = codes "done" ∷ [];
  base_sha = some (replicate 40 b'b');
  head_sha = some (replicate 40 b'a');
  source_sha256 = replicate 64 b'0';
  repository_sha256 = replicate 64 b'1';
  instruction_digests =
      record { source = codes "A"; sha256 = replicate 64 b'2'; precedence = 1 } ∷ [];
  verification_commands = record { program = codes "make"; args = codes "t" ∷ [] } ∷ [];
  required_capabilities = merge_pull_request ∷ [];
  risk = moderate;
  sensitive_paths = record { path = codes "a/b"; reason = codes "keys" } ∷ [];
  dependencies = 8 ∷ 9 ∷ [];
}

read-contract : deserialize contract_wire ≡ ok contract_read
unfolding deserialize try_from nonempty nonzero is_absolute is_git_sha validate_git_sha is_sha256
    validate_sha256 is_space_or_control is_repository_name validate_repository_name validate_ref
    is_https_url validate_https_url validate_github_item validate_optional_git_sha
    new_github_pull_request revalidate_task_source new_digest new_command segments is_bad_path
    new_sensitive_path collect_all collect_set is_bad_criteria is_unbound is_bad_dependencies trim
    len starts_with split_once is_whitespace is_control is_ascii_hexdigit
read-contract = refl

deserialize_lem_example : deserialize (serialize contract_read) ≡ ok contract_read
deserialize_lem_example = deserialize_lem contract_wire contract_read read-contract

abbrev contract_new : TaskContract
contract_new = record contract_read { version = 2 }

new-contract : try_from (draft_of contract_wire) ≡ ok contract_new
unfolding try_from nonempty nonzero is_absolute is_git_sha validate_git_sha is_sha256
    validate_sha256 is_space_or_control is_repository_name validate_repository_name validate_ref
    is_https_url validate_https_url validate_github_item validate_optional_git_sha
    new_github_pull_request revalidate_task_source new_digest new_command segments is_bad_path
    new_sensitive_path collect_all collect_set is_bad_criteria is_unbound is_bad_dependencies trim
    len starts_with split_once is_whitespace is_control is_ascii_hexdigit
new-contract = refl

try_from-IsConsistent_example : IsConsistent contract_new
try_from-IsConsistent_example =
    try_from-IsConsistent (draft_of contract_wire) contract_new new-contract
