-- ===== src/Contract/Legacy.antt =====
-- Contracts of version 1 that can only be read, and snapshots of contracts of both kinds
-- (crates/patchwright-core/src/contract.rs).
use patchwright.Prelude.{
  ℕ, Bool, true, false, not, List, Option, none, some, map, ◌==◌, nat_eq, ok, err, ◌>>◌, ◌>>=◌,
  reject_if,
}
use patchwright.Prelude.Text.{Text, trim}
use patchwright.Policy.Capabilities.{Capability}
use patchwright.Contract.Fields.{Validated, invalid_field, nonempty, validate_optional_git_sha}
use patchwright.Contract.Source.{TaskSource, revalidate_task_source}
use patchwright.Contract.Parts.{
  InstructionDigest, VerificationCommand, RiskClass, SensitivePath, collect_all,
}
use patchwright.Contract.Tasks
use patchwright.Contract.Tasks.{
  TaskContract, TaskContractWire, is_bad_criteria, is_unbound, is_bad_dependencies,
  revalidate_digest, revalidate_command, revalidate_path,
}

pub record LegacyTaskContract : Type 0 where
  pub version : ℕ
  pub task_id : ℕ
  pub source : TaskSource
  pub repository_binding_id : ℕ
  pub goal : Text
  pub acceptance_criteria : List Text
  pub base_sha : Option Text
  pub head_sha : Option Text
  pub instruction_digests : List InstructionDigest
  pub verification_commands : List VerificationCommand
  pub required_capabilities : List Capability
  pub risk : RiskClass
  pub sensitive_paths : List SensitivePath
  pub dependencies : List ℕ

-- What a JSON object of an old contract holds, its parts already read.
pub record LegacyTaskContractWire : Type 0 where
  pub version : ℕ
  pub task_id : ℕ
  pub source : TaskSource
  pub repository_binding_id : ℕ
  pub goal : Text
  pub acceptance_criteria : List Text
  pub base_sha : Option Text
  pub head_sha : Option Text
  pub instruction_digests : List InstructionDigest
  pub verification_commands : List VerificationCommand
  pub required_capabilities : List Capability
  pub risk : RiskClass
  pub sensitive_paths : List SensitivePath
  pub dependencies : List ℕ

-- `LegacyTaskContract::deserialize`, from the wire on.
unfoldable pub deserialize_legacy : LegacyTaskContractWire → Validated LegacyTaskContract
deserialize_legacy wire = do
  reject_if (not (wire.version == 1)) (invalid_field "version")
  source ← revalidate_task_source wire.source
  nonempty (trim wire.goal) "goal"
  reject_if (is_bad_criteria (map trim wire.acceptance_criteria))
      (invalid_field "acceptanceCriteria")
  validate_optional_git_sha wire.base_sha "baseSha"
  validate_optional_git_sha wire.head_sha "headSha"
  reject_if (is_unbound source wire.base_sha wire.head_sha) (invalid_field "pullRequestShaBinding")
  reject_if (is_bad_dependencies wire.task_id wire.dependencies) (invalid_field "dependencies")
  instruction_digests ← collect_all revalidate_digest wire.instruction_digests
  verification_commands ← collect_all revalidate_command wire.verification_commands
  sensitive_paths ← collect_all revalidate_path wire.sensitive_paths
  ok (record {
    version = wire.version;
    task_id = wire.task_id;
    source = source;
    repository_binding_id = wire.repository_binding_id;
    goal = trim wire.goal;
    acceptance_criteria = map trim wire.acceptance_criteria;
    base_sha = wire.base_sha;
    head_sha = wire.head_sha;
    instruction_digests = instruction_digests;
    verification_commands = verification_commands;
    required_capabilities = wire.required_capabilities;
    risk = wire.risk;
    sensitive_paths = sensitive_paths;
    dependencies = wire.dependencies;
  })

-- What the derived `Serialize` writes of an old contract.
abbrev pub serialize_legacy : LegacyTaskContract → LegacyTaskContractWire
serialize_legacy contract = record {
  version = contract.version;
  task_id = contract.task_id;
  source = contract.source;
  repository_binding_id = contract.repository_binding_id;
  goal = contract.goal;
  acceptance_criteria = contract.acceptance_criteria;
  base_sha = contract.base_sha;
  head_sha = contract.head_sha;
  instruction_digests = contract.instruction_digests;
  verification_commands = contract.verification_commands;
  required_capabilities = contract.required_capabilities;
  risk = contract.risk;
  sensitive_paths = contract.sensitive_paths;
  dependencies = contract.dependencies;
}

pub data TaskContractSnapshot : Type 0 where
  executable : TaskContract → TaskContractSnapshot
  legacy_read_only : LegacyTaskContract → TaskContractSnapshot

-- `serde_json::from_value` of a wire, then the rest of the reading.
abbrev pub read_with : {A B : Type 0} → (A → Validated B) → Option A → Validated B
read_with f none = err (invalid_field "json")
read_with f (some wire) = f wire

abbrev pub or_legacy :
    Validated TaskContract → Validated LegacyTaskContract → Validated TaskContractSnapshot
or_legacy (ok contract) rest = ok (executable contract)
or_legacy (err e) rest = rest >>= λ contract. ok (legacy_read_only contract)

-- `TaskContractSnapshot::deserialize`, on the wires that the JSON value has, if any.
unfoldable pub deserialize_snapshot :
    Option TaskContractWire → Option LegacyTaskContractWire → Validated TaskContractSnapshot
deserialize_snapshot wire legacy =
    or_legacy (read_with Tasks.deserialize wire) (read_with deserialize_legacy legacy)

-- `TaskContractSnapshot::is_legacy_read_only`.
unfoldable pub is_legacy_read_only : TaskContractSnapshot → Bool
is_legacy_read_only (executable contract) = false
is_legacy_read_only (legacy_read_only contract) = true
