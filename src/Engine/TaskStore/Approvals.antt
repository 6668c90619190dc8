-- ===== src/Engine/TaskStore/Approvals.antt =====
-- The approvals that the store gives back (crates/patchwright-engine/src/store.rs).
use mathlib.Core.List.{Memᴰ}
use mathlib.Core.Option.{some-injective}
use patchwright.Prelude.{
  ℕ, ◌≡◌, refl, inl, inr, true, List, [], ◌∷◌, Option, none, some, find, Bool-cases, &&-eq-true,
  ◌==◌, nat_eq,
}
use patchwright.Policy.{Approval}
use patchwright.Engine.TaskStore.{
  ApprovalRow, TaskTables, is_open_approval, payload_of, approval, is_null,
}

-- The approval stands in a row of its table that is not invalidated.
pub record IsStored (id : ℕ) (rows : List ApprovalRow) (a : Approval) : Type 0 where
  pub row : ApprovalRow
  pub held : Memᴰ row rows
  pub same_id : row.id ≡ id
  pub open_still : row.invalidated_at ≡ none
  pub payload : row.payload ≡ a

is_null-none : (o : Option ℕ) → is_null o ≡ true → o ≡ none
is_null-none none h = refl
is_null-none (some n) h = cc

find-IsStored :
    (id : ℕ) (rows : List ApprovalRow) (a : Approval)
    → payload_of (find (is_open_approval id) rows) ≡ some a
    → IsStored id rows a
find-IsStored id [] a h = cc
find-IsStored id (x ∷ rows) a h = elim (Bool-cases (is_open_approval id x)) [
  | inl found ↦
      let both = &&-eq-true (x.id == id) (is_null x.invalidated_at) found in
      record {
        row = x;
        held = Memᴰ.head refl;
        same_id = (nat_eq.same_iff x.id id).0 both.0;
        open_still = is_null-none x.invalidated_at both.1;
        payload = some-injective x.payload a (rw found at h);
      }
  | inr passed ↦
      let rest = find-IsStored id rows a (rw passed at h) in
      record {
        row = rest.row;
        held = Memᴰ.tail rest.held;
        same_id = rest.same_id;
        open_still = rest.open_still;
        payload = rest.payload;
      }
]

pub approval-IsStored :
    (id : ℕ) (db : TaskTables) (a : Approval) → approval id db ≡ some a → IsStored id db.approvals a
unfolding approval
approval-IsStored id db a h = find-IsStored id db.approvals a h
