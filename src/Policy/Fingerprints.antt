-- ===== src/Policy/Fingerprints.antt =====
-- Action fingerprints of crates/patchwright-core/src/policy.rs: what an approval is bound to.
use Prim.Native.String.{String}
use patchwright.Prelude.{
  ℕ, Option, none, some, Result, ok, ◌>>=◌, ◌>>◌, reject_if, ◌||◌, not, any, is_empty, ◌==◌, nat_eq,
  option_eq, Eq, discrete_eq, ℕ_discrete,
}
use patchwright.Prelude.Text.{Text, trim, is_control}
use patchwright.Contract.Fields.{is_git_sha, is_sha256, is_repository_name}
use patchwright.Policy.Capabilities.{Capability, ApprovalClass}

pub record ActionFingerprintDraft : Type 0 where
  pub task_id : ℕ
  pub github_repository_id : ℕ
  pub repository_full_name : Text
  pub action_kind : Text
  pub pull_request_number : Option ℕ
  pub branch : Option Text
  pub head_sha : Option Text
  pub base_sha : Option Text
  pub payload_sha256 : Text
  pub policy_sha256 : Text
  pub instruction_sha256 : Text
  pub invalidation_generation : ℕ

pub record ActionFingerprint : Type 0 where
  pub task_id : ℕ
  pub github_repository_id : ℕ
  pub repository_full_name : Text
  pub action_kind : Text
  pub pull_request_number : Option ℕ
  pub branch : Option Text
  pub head_sha : Option Text
  pub base_sha : Option Text
  pub payload_sha256 : Text
  pub policy_sha256 : Text
  pub instruction_sha256 : Text
  pub invalidation_generation : ℕ

unfoldable pub ActionFingerprint-discrete : Discrete ActionFingerprint
ActionFingerprint-discrete = hlevel ℕ_discrete

instance abbrev pub fingerprint_eq : Eq ActionFingerprint
fingerprint_eq = discrete_eq ActionFingerprint-discrete

pub data ApprovalError : Type 0 where
  invalid_field : String → ApprovalError
  invalid_expiration : ApprovalError
  incompatible_class : ApprovalClass → Capability → ApprovalError

unfoldable pub validated_text : Text → String → Result ApprovalError Text
validated_text value field =
    reject_if (is_empty (trim value) || any (trim value) is_control) (invalid_field field)
    >> ok (trim value)

unfoldable pub validated_optional_text : Option Text → String → Result ApprovalError (Option Text)
validated_optional_text none field = ok none
validated_optional_text (some value) field = do text ← validated_text value field; ok (some text)

unfoldable pub validate_repository_name : Text → Result ApprovalError Unit
validate_repository_name value =
    reject_if (not (is_repository_name value)) (invalid_field "repositoryFullName")

unfoldable pub validate_optional_git_sha : Option Text → String → Result ApprovalError Unit
validate_optional_git_sha none field = ok tt
validate_optional_git_sha (some value) field =
    reject_if (not (is_git_sha value)) (invalid_field field)

unfoldable pub validate_sha256 : Text → String → Result ApprovalError Unit
validate_sha256 value field = reject_if (not (is_sha256 value)) (invalid_field field)

-- `TryFrom<ActionFingerprintDraft> for ActionFingerprint`.
unfoldable pub try_from : ActionFingerprintDraft → Result ApprovalError ActionFingerprint
try_from draft = do
  reject_if (draft.github_repository_id == 0) (invalid_field "githubRepositoryId")
  validate_repository_name draft.repository_full_name
  kind ← validated_text draft.action_kind "actionKind"
  reject_if (draft.pull_request_number == some 0) (invalid_field "pullRequestNumber")
  branch ← validated_optional_text draft.branch "branch"
  validate_optional_git_sha draft.head_sha "headSha"
  validate_optional_git_sha draft.base_sha "baseSha"
  validate_sha256 draft.payload_sha256 "payloadSha256"
  validate_sha256 draft.policy_sha256 "policySha256"
  validate_sha256 draft.instruction_sha256 "instructionSha256"
  ok (record {
    task_id = draft.task_id;
    github_repository_id = draft.github_repository_id;
    repository_full_name = draft.repository_full_name;
    action_kind = kind;
    pull_request_number = draft.pull_request_number;
    branch = branch;
    head_sha = draft.head_sha;
    base_sha = draft.base_sha;
    payload_sha256 = draft.payload_sha256;
    policy_sha256 = draft.policy_sha256;
    instruction_sha256 = draft.instruction_sha256;
    invalidation_generation = draft.invalidation_generation;
  })
