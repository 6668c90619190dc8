-- ===== src/Contract/Tasks.antt =====
-- Task contracts of crates/patchwright-core/src/contract.rs.
use patchwright.Prelude.{
  ℕ, Bool, false, not, ◌||◌, List, Option, some, any, is_empty, length, contains, map, ◌==◌,
  option_eq, list_eq, nat_eq, ok, ◌>>◌, ◌>>=◌, reject_if,
}
use patchwright.Prelude.Text.{Text, trim}
use patchwright.Policy.Capabilities.{Capability}
use patchwright.Contract.Fields.{
  Validated, invalid_field, nonempty, validate_optional_git_sha, validate_sha256,
}
use patchwright.Contract.Source.{TaskSource, github_pull_request, revalidate_task_source}
use patchwright.Contract.Parts.{
  InstructionDigest, new_digest, VerificationCommand, new_command, RiskClass, SensitivePath,
  new_sensitive_path, collect_all, collect_set,
}

abbrev pub current_task_contract_version : ℕ
current_task_contract_version = 2

pub record TaskContractDraft : Type 0 where
  pub task_id : ℕ
  pub source : TaskSource
  pub repository_binding_id : ℕ
  pub goal : Text
  pub acceptance_criteria : List Text
  pub base_sha : Option Text
  pub head_sha : Option Text
  pub source_sha256 : Text
  pub repository_sha256 : Text
  pub instruction_digests : List InstructionDigest
  pub verification_commands : List VerificationCommand
  pub required_capabilities : List Capability
  pub risk : RiskClass
  pub sensitive_paths : List SensitivePath
  pub dependencies : List ℕ

pub record TaskContract : Type 0 where
  pub version : ℕ
  pub task_id : ℕ
  pub source : TaskSource
  pub repository_binding_id : ℕ
  pub goal : Text
  pub acceptance_criteria : List Text
  pub base_sha : Option Text
  pub head_sha : Option Text
  pub source_sha256 : Text
  pub repository_sha256 : Text
  pub instruction_digests : List InstructionDigest
  pub verification_commands : List VerificationCommand
  pub required_capabilities : List Capability
  pub risk : RiskClass
  pub sensitive_paths : List SensitivePath
  pub dependencies : List ℕ

-- What a JSON object of a contract holds, its parts already read.
pub record TaskContractWire : Type 0 where
  pub version : ℕ
  pub task_id : ℕ
  pub source : TaskSource
  pub repository_binding_id : ℕ
  pub goal : Text
  pub acceptance_criteria : List Text
  pub base_sha : Option Text
  pub head_sha : Option Text
  pub source_sha256 : Text
  pub repository_sha256 : Text
  pub instruction_digests : List InstructionDigest
  pub verification_commands : List VerificationCommand
  pub required_capabilities : List Capability
  pub risk : RiskClass
  pub sensitive_paths : List SensitivePath
  pub dependencies : List ℕ

-- The tests of the trimmed criteria.
unfoldable pub is_bad_criteria : List Text → Bool
is_bad_criteria criteria = is_empty criteria || any criteria is_empty

-- The test on the commits of a pull request.
unfoldable pub is_unbound : TaskSource → Option Text → Option Text → Bool
is_unbound (github_pull_request source) base_sha head_sha =
    not (base_sha == some source.base_sha) || not (head_sha == some source.head_sha)
is_unbound _ base_sha head_sha = false

unfoldable pub is_bad_dependencies : ℕ → List ℕ → Bool
is_bad_dependencies task_id dependencies =
    not (length (collect_set dependencies) == length dependencies)
    || contains (collect_set dependencies) task_id

abbrev pub revalidate_digest : InstructionDigest → Validated InstructionDigest
revalidate_digest d = new_digest d.source d.sha256 d.precedence

abbrev pub revalidate_command : VerificationCommand → Validated VerificationCommand
revalidate_command c = new_command c.program c.args

abbrev pub revalidate_path : SensitivePath → Validated SensitivePath
revalidate_path p = new_sensitive_path p.path p.reason

-- `TaskContract::try_from`.
unfoldable pub try_from : TaskContractDraft → Validated TaskContract
try_from draft = do
  nonempty (trim draft.goal) "goal"
  source ← revalidate_task_source draft.source
  reject_if (is_bad_criteria (map trim draft.acceptance_criteria))
      (invalid_field "acceptanceCriteria")
  validate_optional_git_sha draft.base_sha "baseSha"
  validate_optional_git_sha draft.head_sha "headSha"
  validate_sha256 draft.source_sha256 "sourceSha256"
  validate_sha256 draft.repository_sha256 "repositorySha256"
  reject_if (is_empty draft.verification_commands) (invalid_field "verificationCommands")
  instruction_digests ← collect_all revalidate_digest draft.instruction_digests
  verification_commands ← collect_all revalidate_command draft.verification_commands
  sensitive_paths ← collect_all revalidate_path draft.sensitive_paths
  reject_if (is_unbound source draft.base_sha draft.head_sha)
      (invalid_field "pullRequestShaBinding")
  reject_if (is_bad_dependencies draft.task_id draft.dependencies) (invalid_field "dependencies")
  ok (record {
    version = current_task_contract_version;
    task_id = draft.task_id;
    source = source;
    repository_binding_id = draft.repository_binding_id;
    goal = trim draft.goal;
    acceptance_criteria = map trim draft.acceptance_criteria;
    base_sha = draft.base_sha;
    head_sha = draft.head_sha;
    source_sha256 = draft.source_sha256;
    repository_sha256 = draft.repository_sha256;
    instruction_digests = instruction_digests;
    verification_commands = verification_commands;
    required_capabilities = draft.required_capabilities;
    risk = draft.risk;
    sensitive_paths = sensitive_paths;
    dependencies = draft.dependencies;
  })

abbrev pub draft_of : TaskContractWire → TaskContractDraft
draft_of wire = record {
  task_id = wire.task_id;
  source = wire.source;
  repository_binding_id = wire.repository_binding_id;
  goal = wire.goal;
  acceptance_criteria = wire.acceptance_criteria;
  base_sha = wire.base_sha;
  head_sha = wire.head_sha;
  source_sha256 = wire.source_sha256;
  repository_sha256 = wire.repository_sha256;
  instruction_digests = wire.instruction_digests;
  verification_commands = wire.verification_commands;
  required_capabilities = wire.required_capabilities;
  risk = wire.risk;
  sensitive_paths = wire.sensitive_paths;
  dependencies = wire.dependencies;
}

-- `TaskContract::deserialize`, from the wire on. serde's error for a version is a text.
unfoldable pub deserialize : TaskContractWire → Validated TaskContract
deserialize wire = do
  reject_if (not (wire.version == 1 || wire.version == current_task_contract_version))
      (invalid_field "version")
  contract ← try_from (draft_of wire)
  ok (record contract { version = wire.version })

-- What the derived `Serialize` writes of a contract.
abbrev pub serialize : TaskContract → TaskContractWire
serialize contract = record {
  version = contract.version;
  task_id = contract.task_id;
  source = contract.source;
  repository_binding_id = contract.repository_binding_id;
  goal = contract.goal;
  acceptance_criteria = contract.acceptance_criteria;
  base_sha = contract.base_sha;
  head_sha = contract.head_sha;
  source_sha256 = contract.source_sha256;
  repository_sha256 = contract.repository_sha256;
  instruction_digests = contract.instruction_digests;
  verification_commands = contract.verification_commands;
  required_capabilities = contract.required_capabilities;
  risk = contract.risk;
  sensitive_paths = contract.sensitive_paths;
  dependencies = contract.dependencies;
}
