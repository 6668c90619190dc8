-- ===== src/Policy/Authorization.antt =====
-- What `Policy::authorize` allows (crates/patchwright-core/src/policy.rs).
use Prim.Native.String.{String}
use patchwright.Prelude.{
  not, same-eq-false, ◌&&◌, if◌then◌else◌, &&-eq-true, leb→le, ltb→lt, le→leb, lt→ltb, list_eq,
  nat_eq, ℕ, ◌≤◌, ◌<◌, ◌≡◌, ◌≢◌, ◌↔◌, ◌⊎◌, inl, inr, refl, Bool, true, false, Option, none, some,
  arith, ◌==◌,
}
use patchwright.Policy.Capabilities.{
  Capability, capability_eq, read_repository, modify_worktree, run_known_command,
  administrator_bypass, action_kind, required_class, approval_class_eq,
}
use patchwright.Policy.Fingerprints.{ActionFingerprint, fingerprint_eq}
use patchwright.Policy.{
  Approval, Policy, PolicyDecision, allowed, denied, is_valid_for, needs_no_approval,
  decide_approval, authorize,
}

-- An approval that covers the capability, this very action and this time.
pub record Covers (approval : Approval) (capability : Capability) (fingerprint : ActionFingerprint)
    (now : ℕ) : Type 0 where
  pub same_class : approval.class ≡ required_class capability
  pub same_capability : approval.capability ≡ capability
  pub same_action : approval.fingerprint ≡ fingerprint
  pub begun : approval.approved_at ≤ now
  pub not_expired : now < approval.expires_at

-- The tests of an approval, as a case split can use them.
is_valid_for→Covers :
    (a : Approval) (c : Capability) (f : ActionFingerprint) (now : ℕ)
    → is_valid_for a (required_class c) c f now ≡ true
    → Covers a c f now
unfolding is_valid_for
is_valid_for→Covers a c f now h =
    let (class, rest₁) = &&-eq-true _ _ h in
    let (capability, rest₂) = &&-eq-true _ _ rest₁ in
    let (action, rest₃) = &&-eq-true _ _ rest₂ in
    let (begun, ends) = &&-eq-true _ _ rest₃ in
    record {
      same_class = (approval_class_eq.same_iff _ _).0 class;
      same_capability = (capability_eq.same_iff _ _).0 capability;
      same_action = (fingerprint_eq.same_iff _ _).0 action;
      begun = leb→le _ _ begun;
      not_expired = ltb→lt _ _ ends;
    }

Covers→is_valid_for :
    (a : Approval) (c : Capability) (f : ActionFingerprint) (now : ℕ)
    → Covers a c f now
    → is_valid_for a (required_class c) c f now ≡ true
unfolding is_valid_for
Covers→is_valid_for a c f now h = simp (
  (approval_class_eq.same_iff _ _).1 h.same_class,
  (capability_eq.same_iff _ _).1 h.same_capability,
  (fingerprint_eq.same_iff _ _).1 h.same_action,
  le→leb _ _ h.begun,
  lt→ltb _ _ h.not_expired,
)

-- The capabilities that work inside the task's own worktree.
pub data IsLocal : Capability → Type 0 where
  reading : IsLocal read_repository
  modifying : IsLocal modify_worktree
  running : IsLocal run_known_command

pub IsLocal-needs_no_approval : (c : Capability) → (needs_no_approval c ≡ true) ↔ IsLocal c
unfolding needs_no_approval
IsLocal-needs_no_approval c = (to c, from)
  where
    to : (d : Capability) → needs_no_approval d ≡ true → IsLocal d
    to read_repository h = reading
    to modify_worktree h = modifying
    to run_known_command h = running
    to _ h = cc

    from : {d : Capability} → IsLocal d → needs_no_approval d ≡ true
    from reading = refl
    from modifying = refl
    from running = refl

-- What it takes for an action to be authorized.
pub record Permitted (policy : Policy) (capability : Capability) (fingerprint : ActionFingerprint)
    (approval : Option Approval) (now : ℕ) : Type 0 where
  pub no_bypass : capability ≢ administrator_bypass
  pub same_kind : fingerprint.action_kind ≡ action_kind capability
  pub automated : (policy.automation_disabled ≡ false) ⊎ (capability ≡ read_repository)
  pub granted :
      IsLocal capability
      ⊎ ((a : Approval) × (approval ≡ some a) × Covers a capability fingerprint now)

decide_approval→Covers :
    (c : Capability) (f : ActionFingerprint) (o : Option Approval) (now : ℕ)
    → decide_approval c f o now ≡ allowed
    → (a : Approval) × (o ≡ some a) × Covers a c f now
unfolding decide_approval
decide_approval→Covers c f none now h = cc
decide_approval→Covers c f (some a) now h = (a, refl, is_valid_for→Covers a c f now (ground arith))

-- The ladder of guards in `authorize`, over any tests.
guards :
    (bypass kind kill free : Bool) (r₁ r₂ r₃ : String) (rest : PolicyDecision)
    → ((if bypass
          then denied r₁
          else if not kind
          then denied r₂
          else if kill
          then denied r₃
          else if free
          then allowed
          else rest)
        ≡ allowed)
      ↔ ((bypass ≡ false) × (kind ≡ true) × (kill ≡ false) × ((free ≡ true) ⊎ (rest ≡ allowed)))
guards true kind kill free r₁ r₂ r₃ rest = (λ h. cc, λ h. cc h.0)
guards false kind kill free r₁ r₂ r₃ rest = (λ h. ground arith, λ h. ground arith)

authorize-guards :
    (p : Policy) (c : Capability) (f : ActionFingerprint) (o : Option Approval) (now : ℕ)
    → (authorize p c f o now ≡ allowed) ↔ (
        ((c == administrator_bypass) ≡ false)
        × ((f.action_kind == action_kind c) ≡ true)
        × ((p.automation_disabled && not (c == read_repository)) ≡ false)
        × ((needs_no_approval c ≡ true) ⊎ (decide_approval c f o now ≡ allowed)))
unfolding authorize
authorize-guards p c f o now =
    guards (c == administrator_bypass) (f.action_kind == action_kind c)
      (p.automation_disabled && not (c == read_repository)) (needs_no_approval c) _ _ _
      (decide_approval c f o now)

kill_switch : (off reads : Bool) → ((off && not reads) ≡ false) ↔ ((off ≡ false) ⊎ (reads ≡ true))
kill_switch off reads = (λ h. ground arith, λ h. ground arith)

authorize→Permitted :
    (p : Policy) (c : Capability) (f : ActionFingerprint) (o : Option Approval) (now : ℕ)
    → authorize p c f o now ≡ allowed
    → Permitted p c f o now
authorize→Permitted p c f o now h =
    let (no_bypass, kind, automated, granted) = (authorize-guards p c f o now).0 h in
    record {
      no_bypass = λ e. cc (no_bypass, (capability_eq.same_iff c administrator_bypass).1 e);
      same_kind = (list_eq.same_iff f.action_kind (action_kind c)).0 kind;
      automated = elim ((kill_switch p.automation_disabled (c == read_repository)).0 automated) [
        | inl off ↦ inl off
        | inr reads ↦ inr ((capability_eq.same_iff c read_repository).0 reads)
      ];
      granted = elim granted [
        | inl l ↦ inl ((IsLocal-needs_no_approval c).0 l)
        | inr d ↦ inr (decide_approval→Covers c f o now d)
      ];
    }

Covers→decide_approval :
    (c : Capability) (f : ActionFingerprint) (o : Option Approval) (a : Approval) (now : ℕ)
    → o ≡ some a
    → Covers a c f now
    → decide_approval c f o now ≡ allowed
unfolding decide_approval
Covers→decide_approval c f o a now e h = rw (e, decide_approval, Covers→is_valid_for a c f now h)

Permitted→authorize :
    (p : Policy) (c : Capability) (f : ActionFingerprint) (o : Option Approval) (now : ℕ)
    → Permitted p c f o now
    → authorize p c f o now ≡ allowed
Permitted→authorize p c f o now h = (authorize-guards p c f o now).1 (
  same-eq-false c administrator_bypass h.no_bypass,
  (list_eq.same_iff f.action_kind (action_kind c)).1 h.same_kind,
  (kill_switch p.automation_disabled (c == read_repository)).1 (elim h.automated [
    | inl off ↦ inl off
    | inr reads ↦ inr ((capability_eq.same_iff c read_repository).1 reads)
  ]),
  elim h.granted [
    | inl l ↦ inl ((IsLocal-needs_no_approval c).1 l)
    | inr (a, e, v) ↦ inr (Covers→decide_approval c f o a now e v)
  ],
)

-- `authorize` allows an action exactly when it is no administrator bypass, the fingerprint names
-- this capability's kind, automation is on or the action only reads, and either the capability is
-- local or the approval given is of the required class, for this capability and this very
-- fingerprint, and the time lies in its window.
pub authorize-iff_Permitted :
    (p : Policy) (c : Capability) (f : ActionFingerprint) (o : Option Approval) (now : ℕ)
    → (authorize p c f o now ≡ allowed) ↔ Permitted p c f o now
authorize-iff_Permitted p c f o now =
    (authorize→Permitted p c f o now, Permitted→authorize p c f o now)
