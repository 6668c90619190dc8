-- ===== src/Policy.antt =====
-- crates/patchwright-core/src/policy.rs: approvals, and the policy that authorizes an action. `id`
-- stands for a fresh UUID; times are nanoseconds from a fixed origin.
pub mod Capabilities
pub mod Fingerprints
pub mod Authorization
pub mod Revalidation
pub mod Approvals
pub mod Tests
use Prim.Native.String.{String}
use patchwright.Prelude.{
  ℕ, ◌*◌, ◌-◌, ◌^◌, Bool, true, false, not, ◌&&◌, ◌||◌, Option, none, some, Result, ok, err, ◌>>=◌,
  ◌>>◌, reject_if, ltb, leb, ◌==◌, nat_eq, list_eq, if◌then◌else◌,
}
use patchwright.Prelude.Text.{Text}
use Capabilities.{
  Capability, capability_eq, read_repository, modify_worktree, run_known_command,
  administrator_bypass, action_kind, ApprovalClass, approval_class_eq, required_class,
  class_supports,
}
use Fingerprints.{
  ActionFingerprint, fingerprint_eq, ApprovalError, invalid_field, invalid_expiration,
  incompatible_class, validated_text,
}

-- `MAX_APPROVAL_DURATION`, thirty minutes in nanoseconds.
abbrev pub max_approval_duration : ℕ
max_approval_duration = 30 * 60 * 10 ^ 9

pub record Approval : Type 0 where
  pub id : ℕ
  pub class : ApprovalClass
  pub capability : Capability
  pub fingerprint : ActionFingerprint
  pub approved_by : Text
  pub approved_at : ℕ
  pub expires_at : ℕ

-- `Approval::new`.
unfoldable pub new :
    ℕ
    → ApprovalClass
    → Capability
    → ActionFingerprint
    → Text
    → ℕ
    → ℕ
    → Result ApprovalError Approval
new id class capability fingerprint approved_by approved_at expires_at = do
  approver ← validated_text approved_by "approvedBy"
  reject_if (leb expires_at approved_at || ltb max_approval_duration (expires_at - approved_at))
      invalid_expiration
  reject_if (not (class_supports class capability)) (incompatible_class class capability)
  reject_if (not (fingerprint.action_kind == action_kind capability)) (invalid_field "actionKind")
  ok (record {
    id = id;
    class = class;
    capability = capability;
    fingerprint = fingerprint;
    approved_by = approver;
    approved_at = approved_at;
    expires_at = expires_at;
  })

unfoldable pub is_valid_for : Approval → ApprovalClass → Capability → ActionFingerprint → ℕ → Bool
is_valid_for approval class capability fingerprint now =
    approval.class == class
    && (approval.capability == capability
        && (approval.fingerprint == fingerprint
            && (leb approval.approved_at now && ltb now approval.expires_at)))

-- The message of `ApprovalRequired` is made of the capability and its class.
pub data PolicyDecision : Type 0 where
  allowed : PolicyDecision
  approval_required : Capability → ApprovalClass → PolicyDecision
  denied : String → PolicyDecision

pub record Policy : Type 0 where
  pub automation_disabled : Bool

-- The capabilities that `authorize` allows without an approval.
unfoldable pub needs_no_approval : Capability → Bool
needs_no_approval read_repository = true
needs_no_approval modify_worktree = true
needs_no_approval run_known_command = true
needs_no_approval _ = false

-- `approval.filter(|value| value.is_valid_for(..))`, and the decision on what is left.
unfoldable pub decide_approval :
    Capability → ActionFingerprint → Option Approval → ℕ → PolicyDecision
unfolding is_valid_for
decide_approval capability fingerprint none now =
    approval_required capability (required_class capability)
decide_approval capability fingerprint (some value) now =
    if is_valid_for value (required_class capability) capability fingerprint now
    then allowed
    else approval_required capability (required_class capability)

unfoldable pub authorize :
    Policy → Capability → ActionFingerprint → Option Approval → ℕ → PolicyDecision
authorize policy capability fingerprint approval now =
    if capability == administrator_bypass
    then denied "administrator bypass is prohibited"
    else if not (fingerprint.action_kind == action_kind capability)
    then denied "action fingerprint does not match capability"
    else if policy.automation_disabled && not (capability == read_repository)
    then denied "automation kill switch is active"
    else if needs_no_approval capability
    then allowed
    else decide_approval capability fingerprint approval now
