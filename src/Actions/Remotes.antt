-- ===== src/Actions/Remotes.antt =====
-- What an action is bound to, and its preview (crates/patchwright-core/src/github_actions.rs). The
-- JSON form of a value and the hexadecimal SHA-256 of it are parameters; a form may fail.
use patchwright.Prelude.{
  ℕ, not, ◌||◌, List, Option, none, some, ◌==◌, list_eq, nat_eq, ok, err, ◌>>=◌, ◌>>◌, reject_if,
}
use patchwright.Prelude.Text.{Text, split_once}
use patchwright.Actions.Wire.{deserialize}
use patchwright.Actions.{
  GitHubAction, GitHubActionWire, invalid_field, serialization, permissions_for,
}
use patchwright.Actions.Fields.{
  Validated, validate_sha, validate_repository_component, transpose_map,
}

pub record RemoteIdentity : Type 0 where
  pub repository_id : ℕ
  pub installation_id : ℕ
  pub repository_full_name : Text

-- The owner and the name of a repository.
unfoldable pub validate_parts : Option (Text × Text) → Validated Unit
validate_parts none = err (invalid_field "repositoryFullName")
validate_parts (some (owner, repository)) = do
  validate_repository_component owner
  validate_repository_component repository

-- `RemoteIdentity::new`.
unfoldable pub new_identity : ℕ → ℕ → Text → Validated RemoteIdentity
new_identity repository_id installation_id repository_full_name = do
  reject_if (repository_id == 0 || installation_id == 0) (invalid_field "remoteIdentity")
  validate_parts (split_once b'/' repository_full_name)
  ok (record {
    repository_id = repository_id;
    installation_id = installation_id;
    repository_full_name = repository_full_name;
  })

-- What a JSON object of a remote identity holds.
pub record RemoteIdentityWire : Type 0 where
  pub repository_id : ℕ
  pub installation_id : ℕ
  pub repository_full_name : Text

-- `RemoteIdentity::deserialize`, from the wire on.
unfoldable pub deserialize_identity : RemoteIdentityWire → Validated RemoteIdentity
deserialize_identity wire =
    new_identity wire.repository_id wire.installation_id wire.repository_full_name

pub record RemotePrecondition : Type 0 where
  pub expected_head_sha : Option Text
  pub expected_base_sha : Option Text
  pub snapshot_generation : ℕ

-- `RemotePrecondition::new`.
unfoldable pub new_precondition : Option Text → Option Text → ℕ → Validated RemotePrecondition
new_precondition expected_head_sha expected_base_sha snapshot_generation = do
  reject_if (snapshot_generation == 0) (invalid_field "snapshotGeneration")
  head ← transpose_map validate_sha expected_head_sha
  base ← transpose_map validate_sha expected_base_sha
  ok (record {
    expected_head_sha = head;
    expected_base_sha = base;
    snapshot_generation = snapshot_generation;
  })

-- What a JSON object of a precondition holds.
pub record RemotePreconditionWire : Type 0 where
  pub expected_head_sha : Option Text
  pub expected_base_sha : Option Text
  pub snapshot_generation : ℕ

-- `RemotePrecondition::deserialize`, from the wire on.
unfoldable pub deserialize_precondition : RemotePreconditionWire → Validated RemotePrecondition
deserialize_precondition wire =
    new_precondition wire.expected_head_sha wire.expected_base_sha wire.snapshot_generation

pub record GitHubActionPreview : Type 0 where
  pub remote : RemoteIdentity
  pub action : GitHubAction
  pub precondition : RemotePrecondition
  pub payload_sha256 : Text
  pub idempotency_sha256 : Text
  pub required_permissions : List Text

-- What a JSON object of a preview holds: its parts are read by their own `deserialize`.
pub record GitHubActionPreviewWire : Type 0 where
  pub remote : RemoteIdentityWire
  pub action : GitHubActionWire
  pub precondition : RemotePreconditionWire
  pub payload_sha256 : Text
  pub idempotency_sha256 : Text
  pub required_permissions : List Text

-- The digests of an action and of the triple that identifies its execution.
pub record Digests : Type 0 where
  pub of_action : GitHubAction → Option Text
  pub of_identity : RemoteIdentity → GitHubAction → RemotePrecondition → Option Text

-- `map_err(|_| Serialization)`.
abbrev pub or_serialization : Option Text → Validated Text
or_serialization none = err serialization
or_serialization (some digest) = ok digest

-- `GitHubActionPreview::new`.
unfoldable pub new_preview :
    Digests → RemoteIdentity → GitHubAction → RemotePrecondition → Validated GitHubActionPreview
new_preview digests remote action precondition = do
  payload_sha256 ← or_serialization (digests.of_action action)
  idempotency_sha256 ← or_serialization (digests.of_identity remote action precondition)
  ok (record {
    remote = remote;
    action = action;
    precondition = precondition;
    payload_sha256 = payload_sha256;
    idempotency_sha256 = idempotency_sha256;
    required_permissions = permissions_for action;
  })

-- `GitHubActionPreview::deserialize`, the parts first, as the wire's own `deserialize` reads them.
unfoldable pub deserialize_preview :
    Digests → GitHubActionPreviewWire → Validated GitHubActionPreview
deserialize_preview digests wire = do
  remote ← deserialize_identity wire.remote
  action ← deserialize wire.action
  precondition ← deserialize_precondition wire.precondition
  preview ← new_preview digests remote action precondition
  reject_if (not (wire.payload_sha256 == preview.payload_sha256)) (invalid_field "payloadSha256")
  reject_if (not (wire.idempotency_sha256 == preview.idempotency_sha256))
      (invalid_field "idempotencySha256")
  reject_if (not (wire.required_permissions == preview.required_permissions))
      (invalid_field "requiredPermissions")
  ok preview
