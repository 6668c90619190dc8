-- ===== src/Policy/Approvals.antt =====
-- What `Approval::new` grants, and for how long (crates/patchwright-core/src/policy.rs).
use patchwright.Prelude.{
  ℕ, ◌+◌, ◌-◌, ◌≤◌, ◌<◌, ◌≡◌, ◌≢◌, inl, inr, refl, Bool, true, false, not, some, ok, arith, list_eq,
  nat_eq, ◌==◌, ◌∙◌, sym, subst, ◌||◌, ltb, leb,
}
use mathlib.Core.Option.{some-injective}
use patchwright.Prelude.Text.{Text}
use patchwright.Policy.Capabilities.{
  Capability, administrator_bypass, action_kind, ApprovalClass, required_class, class_supports,
}
use patchwright.Policy.Fingerprints.{ActionFingerprint}
use patchwright.Policy.{
  Approval, Policy, allowed, max_approval_duration, needs_no_approval, new, authorize,
}
use patchwright.Policy.Authorization.{Covers, authorize-iff_Permitted, IsLocal-needs_no_approval}

-- What holds of an approval that `Approval::new` returns.
pub record IsIssued (class : ApprovalClass) (capability : Capability)
    (fingerprint : ActionFingerprint) (approved_at expires_at : ℕ) (a : Approval) : Type 0 where
  pub class_kept : a.class ≡ class
  pub capability_kept : a.capability ≡ capability
  pub fingerprint_kept : a.fingerprint ≡ fingerprint
  pub begins : a.approved_at ≡ approved_at
  pub ends : a.expires_at ≡ expires_at
  pub lasts : approved_at < expires_at
  pub short : expires_at ≤ approved_at + max_approval_duration
  pub supported : class_supports class capability ≡ true
  pub kind : fingerprint.action_kind ≡ action_kind capability

window :
    (start stop : ℕ)
    → (leb stop start || ltb max_approval_duration (stop - start)) ≡ false
    → (start < stop) × (stop ≤ start + max_approval_duration)
window start stop h = ground arith

not-eq-false : (b : Bool) → not b ≡ false → b ≡ true
not-eq-false b h = ground arith

new-guards :
    (id : ℕ) (class : ApprovalClass) (capability : Capability) (fingerprint : ActionFingerprint)
    (by : Text) (start stop : ℕ) {a : Approval}
    → new id class capability fingerprint by start stop ≡ ok a
    → ((leb stop start || ltb max_approval_duration (stop - start)) ≡ false)
      × (class_supports class capability ≡ true)
      × ((fingerprint.action_kind == action_kind capability) ≡ true)
      × (a.class ≡ class)
      × (a.capability ≡ capability)
      × (a.fingerprint ≡ fingerprint)
      × (a.approved_at ≡ start)
      × (a.expires_at ≡ stop)
unfolding new
new-guards id class capability fingerprint by start stop h = ground arith

new-IsIssued :
    (id : ℕ) (class : ApprovalClass) (capability : Capability) (fingerprint : ActionFingerprint)
    (by : Text) (start stop : ℕ) {a : Approval}
    → new id class capability fingerprint by start stop ≡ ok a
    → IsIssued class capability fingerprint start stop a
new-IsIssued id class capability fingerprint by start stop h =
    let (in_window, supports, names, c, k, f, b, e) =
      new-guards id class capability fingerprint by start stop h in
    let (lasts, short) = window start stop in_window in
    record {
      class_kept = c;
      capability_kept = k;
      fingerprint_kept = f;
      begins = b;
      ends = e;
      lasts = lasts;
      short = short;
      supported = supports;
      kind = (list_eq.same_iff _ _).0 names;
    }

class_supports-required :
    (class : ApprovalClass) (c : Capability)
    → class_supports class c ≡ true
    → (class ≡ required_class c) × (c ≢ administrator_bypass)
unfolding class_supports required_class
class_supports-required class c h = (ground arith, λ e. ground arith)

-- An approval that `Approval::new` returns covers its own action within its window.
issued-Covers :
    (class : ApprovalClass) (c : Capability) (f : ActionFingerprint) (start stop now : ℕ)
    (a : Approval)
    → IsIssued class c f start stop a
    → start ≤ now
    → now < stop
    → Covers a c f now
issued-Covers class c f start stop now a i begun ends = record {
  same_class = i.class_kept ∙ (class_supports-required class c i.supported).0;
  same_capability = i.capability_kept;
  same_action = i.fingerprint_kept;
  begun = rw i.begins begun;
  not_expired = rw i.ends ends;
}

-- The approval that `Approval::new` returns for an action authorizes that action, from its start
-- until just before its expiry, while automation is on.
pub authorize-new :
    (id : ℕ) (class : ApprovalClass) (c : Capability) (f : ActionFingerprint) (by : Text)
    (start stop now : ℕ) (p : Policy) (a : Approval)
    → new id class c f by start stop ≡ ok a
    → p.automation_disabled ≡ false
    → start ≤ now
    → now < stop
    → authorize p c f (some a) now ≡ allowed
authorize-new id class c f by start stop now p a h on begun ends =
    let i = new-IsIssued id class c f by start stop h in
    (authorize-iff_Permitted p c f (some a) now).1 (record {
      no_bypass = (class_supports-required class c i.supported).1;
      same_kind = i.kind;
      automated = inl on;
      granted = inr (a, refl, issued-Covers class c f start stop now a i begun ends);
    })

gated-Covers :
    (p : Policy) (d : Capability) (g : ActionFingerprint) (a : Approval) (now : ℕ)
    → needs_no_approval d ≡ false
    → authorize p d g (some a) now ≡ allowed
    → Covers a d g now
gated-Covers p d g a now gated permitted =
    elim ((authorize-iff_Permitted p d g (some a) now).0 permitted).granted [
      | inl free ↦ cc (gated, (IsLocal-needs_no_approval d).1 free)
      | inr (b, e, v) ↦ subst (λ x. Covers x d g now) (sym (some-injective a b e)) v
    ]

-- Whatever action an approval from `Approval::new` is presented for: if the action needs an
-- approval and is authorized, then it is the very action, of the very capability, that the approval
-- was made for, and at most thirty minutes have passed since.
pub authorize-bound :
    (id : ℕ) (class : ApprovalClass) (c d : Capability) (f g : ActionFingerprint) (by : Text)
    (start stop now : ℕ) (p : Policy) (a : Approval)
    → new id class c f by start stop ≡ ok a
    → needs_no_approval d ≡ false
    → authorize p d g (some a) now ≡ allowed
    → (d ≡ c) × (g ≡ f) × (start ≤ now) × (now < start + max_approval_duration)
authorize-bound id class c d f g by start stop now p a h gated permitted =
    let i = new-IsIssued id class c f by start stop h in
    let v = gated-Covers p d g a now gated permitted in
    (
      sym v.same_capability ∙ i.capability_kept,
      sym v.same_action ∙ i.fingerprint_kept,
      omega (arith, v.begun, i.begins),
      omega (arith, v.not_expired, i.ends, i.short),
    )
