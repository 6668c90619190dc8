-- ===== src/Actions/Previews.antt =====
-- Which previews are accepted (crates/patchwright-core/src/github_actions.rs).
use patchwright.Prelude.{
  ◌≡◌, ◌↔◌, arith, refl, subst, not, ok, >>=-eq-ok, >>-eq-ok, reject_if, ok-injective, ◌==◌,
  list_eq, nat_eq, same_refl, Eq, ◌>>◌,
}
use patchwright.Actions.{GitHubAction, GitHubActionError, invalid_field}
use patchwright.Actions.Wire.{deserialize}
use patchwright.Actions.Remotes.{
  RemoteIdentity, RemotePrecondition, GitHubActionPreview, GitHubActionPreviewWire, Digests,
  new_preview, deserialize_identity, deserialize_precondition, deserialize_preview,
}

-- A comparison that must hold.
demanded :
    {A : Type 0} ⦃eq : Eq A⦄ (a b : A) (e : GitHubActionError)
    → reject_if (not (a == b)) e ≡ ok tt
    → a ≡ b
demanded ⦃eq⦄ a b e h = (eq.same_iff a b).0 (ground arith)

-- What was written is what was computed.
pub record IsComputed (w : GitHubActionPreviewWire) (p : GitHubActionPreview) : Type 0 where
  pub payload_sha256 : w.payload_sha256 ≡ p.payload_sha256
  pub idempotency_sha256 : w.idempotency_sha256 ≡ p.idempotency_sha256
  pub required_permissions : w.required_permissions ≡ p.required_permissions

-- The preview is the one computed anew from the parts that are read.
pub record IsAnew (d : Digests) (w : GitHubActionPreviewWire) (p : GitHubActionPreview)
    : Type 0 where
  pub remote : RemoteIdentity
  pub action : GitHubAction
  pub precondition : RemotePrecondition
  pub remote_read : deserialize_identity w.remote ≡ ok remote
  pub action_read : deserialize w.action ≡ ok action
  pub precondition_read : deserialize_precondition w.precondition ≡ ok precondition
  pub computed : new_preview d remote action precondition ≡ ok p

compared :
    (w : GitHubActionPreviewWire) (v p : GitHubActionPreview)
    → (do
      reject_if (not (w.payload_sha256 == v.payload_sha256)) (invalid_field "payloadSha256")
      reject_if
          (not (w.idempotency_sha256 == v.idempotency_sha256))
          (invalid_field "idempotencySha256")
      reject_if
          (not (w.required_permissions == v.required_permissions))
          (invalid_field "requiredPermissions")
      ok v)
      ≡ ok p
    → (v ≡ p) × IsComputed w p
compared w v p e =
    let one = >>-eq-ok (reject_if (not (w.payload_sha256 == v.payload_sha256)) _) _ e in
    let two = >>-eq-ok (reject_if (not (w.idempotency_sha256 == v.idempotency_sha256)) _) _ one.1 in
    let three =
      >>-eq-ok (reject_if (not (w.required_permissions == v.required_permissions)) _) _ two.1 in
    let same = ok-injective three.1 in
    (
      same,
      subst (λ p. IsComputed w p) same
          (record {
            payload_sha256 = demanded w.payload_sha256 v.payload_sha256 _ one.0;
            idempotency_sha256 = demanded w.idempotency_sha256 v.idempotency_sha256 _ two.0;
            required_permissions = demanded w.required_permissions v.required_permissions _ three.0;
          }),
    )

deserialize_preview-IsComputed :
    (d : Digests) (w : GitHubActionPreviewWire) (p : GitHubActionPreview)
    → deserialize_preview d w ≡ ok p
    → IsAnew d w p × IsComputed w p
unfolding deserialize_preview
deserialize_preview-IsComputed d w p e =
    let (r, er, e) = >>=-eq-ok (deserialize_identity w.remote) _ e in
    let (a, ea, e) = >>=-eq-ok (deserialize w.action) _ e in
    let (c, ec, e) = >>=-eq-ok (deserialize_precondition w.precondition) _ e in
    let (v, made, e) = >>=-eq-ok (new_preview d r a c) _ e in
    let (same, computed) = compared w v p e in
    (
      record {
        remote = r;
        action = a;
        precondition = c;
        remote_read = er;
        action_read = ea;
        precondition_read = ec;
        computed = subst (λ p. new_preview d r a c ≡ ok p) same made;
      },
      computed,
    )

IsComputed-deserialize_preview :
    (d : Digests) (w : GitHubActionPreviewWire) (p : GitHubActionPreview)
    → IsAnew d w p
    → IsComputed w p
    → deserialize_preview d w ≡ ok p
unfolding deserialize_preview
IsComputed-deserialize_preview d w p a c =
    rw
      (
        a.remote_read,
        a.action_read,
        a.precondition_read,
        a.computed,
        c.payload_sha256,
        c.idempotency_sha256,
        c.required_permissions,
        same_refl p.payload_sha256,
        same_refl p.idempotency_sha256,
        same_refl p.required_permissions,
      )
      refl

-- A preview is read exactly when its remote, its action and its precondition are each read, it is
-- the preview that is computed anew from what was read of them, and both digests and the
-- permissions that were written are the computed ones.
pub deserialize_preview_iff :
    (d : Digests) (w : GitHubActionPreviewWire) (p : GitHubActionPreview)
    → (deserialize_preview d w ≡ ok p) ↔ (IsAnew d w p × IsComputed w p)
deserialize_preview_iff d w p =
    (deserialize_preview-IsComputed d w p, λ h. IsComputed-deserialize_preview d w p h.0 h.1)
