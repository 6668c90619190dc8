-- ===== src/Policy/Revalidation.antt =====
-- A validated fingerprint is in normal form (crates/patchwright-core/src/policy.rs).
use patchwright.Prelude.{◌≡◌, Option, none, some, ok, >>=-eq-ok, arith}
use Prim.Native.String.{String}
use patchwright.Prelude.Text.{Text}
use patchwright.Prelude.Text.Laws.{trim_idempotent}
use patchwright.Policy.Fingerprints.{
  ActionFingerprintDraft, ActionFingerprint, validated_text, validated_optional_text, try_from,
}

-- The fingerprint, handed in as a draft.
abbrev pub redraft : ActionFingerprint → ActionFingerprintDraft
redraft f = record {
  task_id = f.task_id;
  github_repository_id = f.github_repository_id;
  repository_full_name = f.repository_full_name;
  action_kind = f.action_kind;
  pull_request_number = f.pull_request_number;
  branch = f.branch;
  head_sha = f.head_sha;
  base_sha = f.base_sha;
  payload_sha256 = f.payload_sha256;
  policy_sha256 = f.policy_sha256;
  instruction_sha256 = f.instruction_sha256;
  invalidation_generation = f.invalidation_generation;
}

validated_text-again :
    (value : Text) (field : String) {text : Text}
    → validated_text value field ≡ ok text
    → validated_text text field ≡ ok text
unfolding validated_text
validated_text-again value field {text} h = ground (arith, trim_idempotent value)

validated_optional_text-again :
    (value : Option Text) (field : String) {text : Option Text}
    → validated_optional_text value field ≡ ok text
    → validated_optional_text text field ≡ ok text
unfolding validated_optional_text
validated_optional_text-again none field h = ground arith
validated_optional_text-again (some value) field h =
    let (t, given, same) = >>=-eq-ok (validated_text value field) (λ t. ok (some t)) h in
    ground (arith, validated_text-again value field given)

-- Validating a fingerprint again accepts it and changes nothing.
pub try_from-try_from :
    (draft : ActionFingerprintDraft) (f : ActionFingerprint)
    → try_from draft ≡ ok f
    → try_from (redraft f) ≡ ok f
unfolding try_from
try_from-try_from draft f h = ground (
  arith,
  validated_text-again draft.action_kind "actionKind" {text = f.action_kind},
  validated_optional_text-again draft.branch "branch" {text = f.branch},
)
