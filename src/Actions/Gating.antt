-- ===== src/Actions/Gating.antt =====
-- No action runs without an approval (crates/patchwright-core/src/github_actions.rs and
-- crates/patchwright-core/src/policy.rs).
use patchwright.Prelude.{
  ℕ, ◌≡◌, ◌∙◌, ◌≢◌, inl, inr, arith, Bool, true, false, Option, some, if◌then◌else◌,
}
use patchwright.Policy.Capabilities.{merge, github_delivery, required_class, read_repository}
use patchwright.Policy.Fingerprints.{ActionFingerprint}
use patchwright.Policy.{Policy, Approval, allowed, authorize, needs_no_approval}
use patchwright.Policy.Authorization.{Covers, authorize-iff_Permitted, IsLocal-needs_no_approval}
use patchwright.Actions.{GitHubAction, capability}

-- The actions that put a pull request into its base branch or into the queue for it.
abbrev pub merges : GitHubAction → Bool
merges (GitHubAction.merge_pull_request _ _ _) = true
merges (GitHubAction.enqueue_pull_request _ _) = true
merges _ = false

required_class-capability :
    (action : GitHubAction)
    → required_class (capability action) ≡ (if merges action then merge else github_delivery)
unfolding required_class capability
required_class-capability action = ground arith

needs_no_approval-capability :
    (action : GitHubAction) → needs_no_approval (capability action) ≡ false
unfolding needs_no_approval capability
needs_no_approval-capability action = ground arith

reads_nothing : (action : GitHubAction) → capability action ≢ read_repository
unfolding capability
reads_nothing action e = ground arith

-- Whenever the policy allows an action on GitHub, automation is on and there is an approval that
-- covers this action now, of the merge class for a merge or an enqueueing and of the delivery class
-- for every other action.
pub authorize-capability :
    (policy : Policy) (action : GitHubAction) (fingerprint : ActionFingerprint)
    (approval : Option Approval) (now : ℕ)
    → authorize policy (capability action) fingerprint approval now ≡ allowed
    → (policy.automation_disabled ≡ false)
      × (a : Approval) × (approval ≡ some a)
      × Covers a (capability action) fingerprint now
      × (a.class ≡ (if merges action then merge else github_delivery))
authorize-capability policy action fingerprint approval now h =
    let p = (authorize-iff_Permitted policy (capability action) fingerprint approval now).0 h in
    let on : policy.automation_disabled ≡ false = elim p.automated [
      | inl off ↦ off
      | inr reads ↦ absurd (reads_nothing action reads)
    ] in
    elim p.granted [
      | inl free ↦ cc (
        needs_no_approval-capability action,
        (IsLocal-needs_no_approval (capability action)).1 free,
      )
      | inr (a, e, c) ↦ (on, a, e, c, c.same_class ∙ required_class-capability action)
    ]
