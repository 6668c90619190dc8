-- ===== src/Contract/Bindings.antt =====
-- Repository bindings of crates/patchwright-core/src/contract.rs. `id` stands for a fresh UUID.
use patchwright.Prelude.{
  ℕ, Bool, true, false, not, Option, none, some, ◌==◌, bool_eq, ok, ◌>>◌, reject_if,
}
use patchwright.Prelude.Text.{Text}
use patchwright.Contract.Fields.{
  Validated, invalid_field, nonzero, nonempty, validate_repository_name, validate_https_url,
  validate_optional_absolute_path, validate_absolute_path, validate_optional_git_sha,
}

pub data RepositoryPermissionLevel : Type 0 where
  none_given read write : RepositoryPermissionLevel

pub record RepositoryPermissionSnapshot : Type 0 where
  pub metadata : RepositoryPermissionLevel
  pub contents : RepositoryPermissionLevel
  pub issues : RepositoryPermissionLevel
  pub pull_requests : RepositoryPermissionLevel
  pub checks : RepositoryPermissionLevel
  pub administration : RepositoryPermissionLevel

abbrev pub read_only : RepositoryPermissionSnapshot
read_only = record {
  metadata = read;
  contents = read;
  issues = read;
  pull_requests = read;
  checks = read;
  administration = none_given;
}

pub data CredentialHealth : Type 0 where
  unknown healthy expired revoked missing_permission : CredentialHealth

pub record RepositoryBindingDraft : Type 0 where
  pub github_repository_id : ℕ
  pub full_name : Text
  pub installation_id : ℕ
  pub clone_url : Text
  pub html_url : Text
  pub default_branch : Text
  pub user_checkout : Option Text
  pub managed_clone : Option Text
  pub state_root : Text
  pub worktree_root : Text
  pub default_branch_sha : Option Text
  pub default_branch_committed_at : Option ℕ
  pub permissions : RepositoryPermissionSnapshot
  pub credential_health : CredentialHealth

pub record RepositoryBinding : Type 0 where
  pub id : ℕ
  pub github_repository_id : ℕ
  pub full_name : Text
  pub installation_id : ℕ
  pub clone_url : Text
  pub html_url : Text
  pub default_branch : Text
  pub user_checkout : Option Text
  pub managed_clone : Option Text
  pub state_root : Text
  pub worktree_root : Text
  pub default_branch_sha : Option Text
  pub default_branch_committed_at : Option ℕ
  pub permissions : RepositoryPermissionSnapshot
  pub credential_health : CredentialHealth

unfoldable pub is_given : {A : Type 0} → Option A → Bool
is_given none = false
is_given (some a) = true

-- `RepositoryBinding::try_from`.
unfoldable pub new_binding : ℕ → RepositoryBindingDraft → Validated RepositoryBinding
new_binding id draft = do
  nonzero draft.github_repository_id "githubRepositoryId"
  nonzero draft.installation_id "installationId"
  validate_repository_name draft.full_name
  validate_https_url draft.clone_url "cloneUrl"
  validate_https_url draft.html_url "htmlUrl"
  nonempty draft.default_branch "defaultBranch"
  validate_optional_absolute_path draft.user_checkout "userCheckout"
  validate_optional_absolute_path draft.managed_clone "managedClone"
  validate_absolute_path draft.state_root "stateRoot"
  validate_absolute_path draft.worktree_root "worktreeRoot"
  validate_optional_git_sha draft.default_branch_sha "defaultBranchSha"
  reject_if (not (is_given draft.default_branch_sha == is_given draft.default_branch_committed_at))
      (invalid_field "defaultBranchCommit")
  ok (record {
    id = id;
    github_repository_id = draft.github_repository_id;
    full_name = draft.full_name;
    installation_id = draft.installation_id;
    clone_url = draft.clone_url;
    html_url = draft.html_url;
    default_branch = draft.default_branch;
    user_checkout = draft.user_checkout;
    managed_clone = draft.managed_clone;
    state_root = draft.state_root;
    worktree_root = draft.worktree_root;
    default_branch_sha = draft.default_branch_sha;
    default_branch_committed_at = draft.default_branch_committed_at;
    permissions = draft.permissions;
    credential_health = draft.credential_health;
  })
