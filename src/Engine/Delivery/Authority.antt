-- ===== src/Engine/Delivery/Authority.antt =====
-- When a delivery is executed (crates/patchwright-engine/src/delivery.rs).
use mathlib.Core.Bool.{or-true}
use mathlib.Core.Option.{some-injective}
use patchwright.Prelude.{
  same_refl, list_eq, nat_eq, ℕ, ◌≡◌, ◌≢◌, refl, sym, subst, ap, ◌∙◌, Bool, true, false, not, List,
  Option, none, some, All, ok, err, >>=-eq-ok, >>-eq-ok, ok-injective, if◌then◌else◌, arith,
}
use patchwright.Prelude.Text.{Text}
use patchwright.Domain.{Task}
use patchwright.Policy.Capabilities.{merge, github_delivery}
use patchwright.Policy.Authorization.{Covers}
use patchwright.Policy.{
  Policy, Approval, PolicyDecision, allowed, approval_required, denied, authorize,
}
use patchwright.Actions.Gating.{merges, authorize-capability}
use patchwright.Engine.TaskStore.{TaskTables, approval}
use patchwright.Engine.TaskStore.Approvals.{IsStored, approval-IsStored}
use patchwright.Engine.TaskStore.Deliveries.{claim_delivery_with_task_event}
use patchwright.Engine.TaskStore.Ledger.{IsKeyed, holds, Shows, claim-Shows}
use patchwright.Engine.TaskStore.Histories.{Operation, perform_all}
use patchwright.Engine.TaskStore.Exclusion.{records_failure, claim-claim}
use patchwright.Engine.Delivery.{
  DeliveryPreview, delivery_preview_eq, DeliveryError, approval_missing, Delivered, Tools, ok_or,
}
use patchwright.Engine.Delivery.Previews.{preview_delivery}
use patchwright.Engine.Delivery.Execution.{
  fresh_preview, capability_of, or_refused, checked_execution, answered, claim_checked,
  authorize_execution,
}

answered-eq-ok :
    (k : Text) (r : TaskTables × Bool) (key : Text)
    → (answered k r).1 ≡ ok key
    → (r.1 ≡ true) × (k ≡ key) × ((answered k r).0 ≡ r.0)
answered-eq-ok k (db, true) key h = (refl, ok-injective h, refl)
answered-eq-ok k (db, false) key h = cc

not-true : (b : Bool) → not b ≡ true → b ≡ false
not-true true h = cc
not-true false h = refl

-- An execution that is granted passed the checks and claimed its key.
record IsExecuted (tools : Tools) (policy : Policy) (clock : ℕ → ℕ) (preview : DeliveryPreview)
    (approval_id : ℕ) (db : TaskTables) (key : Text) : Type 0 where
  event : Option (Task × Text)
  checked : checked_execution tools policy clock preview approval_id db ≡ ok event
  won : (claim_delivery_with_task_event tools.outside.state_of (clock 2) key event db).1 ≡ true
  left :
      (authorize_execution tools policy clock preview approval_id db).0
      ≡ (claim_delivery_with_task_event tools.outside.state_of (clock 2) key event db).0
  same_key : preview.action.idempotency_sha256 ≡ key

executed_from :
    (tools : Tools) (now : ℕ) (k : Text) (checks : Delivered (Option (Task × Text)))
    (db : TaskTables) (key : Text)
    → (claim_checked tools now k checks db).1 ≡ ok key
    → (event : Option (Task × Text)) × (checks ≡ ok event)
      × ((claim_delivery_with_task_event tools.outside.state_of now k event db).1 ≡ true)
      × (k ≡ key)
      × ((claim_checked tools now k checks db).0
          ≡ (claim_delivery_with_task_event tools.outside.state_of now k event db).0)
executed_from tools now k (ok event) db key h =
    let a =
      answered-eq-ok k (claim_delivery_with_task_event tools.outside.state_of now k event db) key
        h in
    (event, refl, a.0, a.1, a.2)
executed_from tools now k (err e) db key h = cc

authorize_execution-IsExecuted :
    (tools : Tools) (policy : Policy) (clock : ℕ → ℕ) (preview : DeliveryPreview) (approval_id : ℕ)
    (db : TaskTables) (key : Text)
    → (authorize_execution tools policy clock preview approval_id db).1 ≡ ok key
    → IsExecuted tools policy clock preview approval_id db key
unfolding authorize_execution
authorize_execution-IsExecuted tools policy clock preview approval_id db key h =
    let f =
      executed_from tools (clock 2) preview.action.idempotency_sha256
        (checked_execution tools policy clock preview approval_id db) db key h in
    subst (λ k. IsExecuted tools policy clock preview approval_id db k) f.3
      (record { event = f.0; checked = f.1; won = f.2; left = f.4; same_key = refl })

fresh_preview-eq :
    (tools : Tools) (db : TaskTables) (preview : DeliveryPreview)
    → fresh_preview tools db preview ≡ ok tt
    → preview_delivery tools db preview.task_id preview.action ≡ ok preview
unfolding fresh_preview
fresh_preview-eq tools db preview h =
    let (fresh, made, same) =
      >>=-eq-ok (preview_delivery tools db preview.task_id preview.action) _ h in
    subst (λ p. preview_delivery tools db preview.task_id preview.action ≡ ok p)
      ((delivery_preview_eq.same_iff fresh preview).0 (ground arith)) made

or_refused-eq-ok : (d : PolicyDecision) → or_refused d ≡ ok tt → d ≡ allowed
or_refused-eq-ok allowed h = refl
or_refused-eq-ok (approval_required _ _) h = cc
or_refused-eq-ok (denied _) h = cc

ok_or-eq-ok :
    {A : Type 0} (o : Option A) (e : DeliveryError) {a : A} → ok_or o e ≡ ok a → o ≡ some a
ok_or-eq-ok none e h = cc
ok_or-eq-ok (some a) e h = ap some (ok-injective h)

-- The approval that the policy accepted.
accepted :
    (policy : Policy) (preview : DeliveryPreview) (a : Approval) (now : ℕ)
    → authorize policy (capability_of preview) preview.fingerprint (some a) now ≡ allowed
    → (policy.automation_disabled ≡ false)
      × Covers a (capability_of preview) preview.fingerprint now
      × (a.class ≡ (if merges preview.action.action then merge else github_delivery))
accepted policy preview a now h =
    let g = authorize-capability policy preview.action.action preview.fingerprint (some a) now h in
    let same : g.1 ≡ a = sym (some-injective a g.1 g.2) in
    (
      g.0,
      subst (λ b. Covers b (capability_of preview) preview.fingerprint now) same g.3,
      subst
          (λ (b : Approval).
            b.class ≡ (if merges preview.action.action then merge else github_delivery))
          same g.4,
    )

self_shown :
    (state_of : Text → Option Text) (db : TaskTables)
    → IsKeyed db
    → Shows state_of db (holds state_of db)
self_shown state_of db keyed = record { keyed = keyed; shown = λ j. refl }

-- What must hold for an execution to be granted, and what it leaves.
pub record IsGranted (tools : Tools) (policy : Policy) (clock : ℕ → ℕ) (preview : DeliveryPreview)
    (approval_id : ℕ) (db : TaskTables) (key : Text) : Type 0 where
  pub fresh : preview_delivery tools db preview.task_id preview.action ≡ ok preview
  pub automated : policy.automation_disabled ≡ false
  pub approved :
      (a : Approval) × (approval approval_id db ≡ some a)
      × IsStored approval_id db.approvals a
      × Covers a (capability_of preview) preview.fingerprint (clock 0)
      × (a.class ≡ (if merges preview.action.action then merge else github_delivery))
  pub own_key : preview.action.idempotency_sha256 ≡ key
  pub was_free : holds tools.outside.state_of db key ≡ false
  pub is_taken :
      holds tools.outside.state_of
        (authorize_execution tools policy clock preview approval_id db).0
        key
      ≡ true

-- An execution is granted only for a preview that is the one computed now, with automation on and
-- with the stored approval of the given id, in a row that is not invalidated, of the class that the
-- action needs, that covers this very action at this time; its idempotency key was not held before, and is held after.
pub authorize_execution-IsGranted :
    (tools : Tools) (policy : Policy) (clock : ℕ → ℕ) (preview : DeliveryPreview) (approval_id : ℕ)
    (db : TaskTables) (key : Text)
    → IsKeyed db
    → (authorize_execution tools policy clock preview approval_id db).1 ≡ ok key
    → IsGranted tools policy clock preview approval_id db key
unfolding checked_execution
authorize_execution-IsGranted tools policy clock preview approval_id db key keyed h =
    let x = authorize_execution-IsExecuted tools policy clock preview approval_id db key h in
    let fresh = >>-eq-ok (fresh_preview tools db preview) _ x.checked in
    let (a, found, rest) = >>=-eq-ok (ok_or (approval approval_id db) approval_missing) _ fresh.1 in
    let allow =
      >>-eq-ok
        (or_refused
          (authorize policy (capability_of preview) preview.fingerprint (some a) (clock 0)))
        _ rest in
    let ok_by = accepted policy preview a (clock 0) (or_refused-eq-ok _ allow.0) in
    let claim =
      claim-Shows tools.outside.state_of (clock 2) key x.event db (holds tools.outside.state_of db)
        (self_shown tools.outside.state_of db keyed) in
    record {
      fresh = fresh_preview-eq tools db preview fresh.0;
      automated = ok_by.0;
      approved = (
        a,
        ok_or-eq-ok _ _ found,
        approval-IsStored approval_id db a (ok_or-eq-ok _ _ found),
        ok_by.1,
        ok_by.2,
      );
      own_key = x.same_key;
      was_free = not-true (holds tools.outside.state_of db key) (sym claim.0 ∙ x.won);
      is_taken =
          subst (λ after. holds tools.outside.state_of after key ≡ true) (sym x.left)
            (claim.1.shown key
              ∙ rw (same_refl key) (or-true (holds tools.outside.state_of db key)));
    }

-- After an execution was granted no execution is granted again under its key, of whatever preview,
-- approval and policy, until an operation records a failed result for that key.
pub authorize_execution-authorize_execution :
    (tools : Tools) (policy later : Policy) (clock later_clock : ℕ → ℕ)
    (preview other : DeliveryPreview) (approval_id other_id : ℕ) (db : TaskTables) (key : Text)
    (ops : List Operation)
    → IsKeyed db
    → (authorize_execution tools policy clock preview approval_id db).1 ≡ ok key
    → All (λ op. records_failure tools.outside key op ≡ false) ops
    → (authorize_execution tools later later_clock other other_id (
        perform_all tools.outside ops
          (authorize_execution tools policy clock preview approval_id db).0)).1
      ≢ ok key
authorize_execution-authorize_execution tools policy later clock later_clock preview other
      approval_id other_id db key ops keyed h quiet again =
    let x = authorize_execution-IsExecuted tools policy clock preview approval_id db key h in
    let y =
      authorize_execution-IsExecuted tools later later_clock other other_id
        (perform_all tools.outside ops
          (authorize_execution tools policy clock preview approval_id db).0)
        key again in
    let once =
      claim-claim tools.outside key (clock 2) (later_clock 2) x.event y.event db ops keyed quiet in
    let won =
      subst
        (λ after.
          (claim_delivery_with_task_event tools.outside.state_of (later_clock 2) key y.event
            (perform_all tools.outside ops after)).1
          ≡ true)
        x.left y.won in
    cc (won, once)
