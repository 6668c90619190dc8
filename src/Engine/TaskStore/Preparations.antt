-- ===== src/Engine/TaskStore/Preparations.antt =====
-- The table `preparation_claims` of crates/patchwright-engine/src/store.rs. `julianday` stands for
-- SQLite's function of that name on the RFC 3339 form of a time.
use patchwright.Prelude.{
  ℕ, Bool, not, ◌&&◌, ◌||◌, none, some, [], ◌∷◌, ◌++◌, any, count, if◌then◌else◌, ◌==◌, nat_eq,
  list_eq, Result, ok, err, ltb,
}
use patchwright.Prelude.Text.{Text, codes}
use patchwright.Prelude.Tables.{update_where}
use patchwright.Policy.Capabilities.{capability_eq, prepare_worktree}
use patchwright.Engine.TaskStore.{TaskTables, ApprovalRow, PreparationClaim, is_null}

pub data PreparationClaimOutcome : Type 0 where
  claimed approval_unavailable already_claimed task_in_progress : PreparationClaimOutcome

-- The approvals that the insertion selects.
unfoldable pub is_available : (ℕ → ℕ) → ℕ → ℕ → Text → ℕ → ApprovalRow → Bool
is_available julianday approval_id task_id action_digest now row =
    row.id == approval_id
    && (row.task_id == task_id
        && (row.capability == prepare_worktree
            && (row.action_digest == action_digest
                && (is_null row.invalidated_at && ltb (julianday now) (julianday row.expires_at)))))

abbrev pub is_claim_of : ℕ → PreparationClaim → Bool
is_claim_of approval_id claim = claim.approval_id == approval_id

abbrev pub is_active : PreparationClaim → Bool
is_active claim = is_null claim.completed_at

abbrev pub is_active_for : ℕ → PreparationClaim → Bool
is_active_for task_id claim = claim.task_id == task_id && is_active claim

abbrev pub new_claim : ℕ → ℕ → Text → ℕ → PreparationClaim
new_claim approval_id task_id action_digest now = record {
  approval_id = approval_id;
  task_id = task_id;
  action_digest = action_digest;
  claimed_at = now;
  result = none;
  completed_at = none;
}

-- `EventStore::claim_preparation`. The insertion changes nothing when the primary key or the unique
-- index on the tasks with an active claim forbids it.
unfoldable pub claim_preparation :
    (ℕ → ℕ) → ℕ → ℕ → Text → ℕ → TaskTables → TaskTables × PreparationClaimOutcome
claim_preparation julianday approval_id task_id action_digest now db =
    if any db.approvals (is_available julianday approval_id task_id action_digest now)
      && (not (any db.preparation_claims (is_claim_of approval_id))
          && not (any db.preparation_claims (is_active_for task_id)))
    then (
      record db {
        preparation_claims =
            db.preparation_claims ++ new_claim approval_id task_id action_digest now ∷ [];
      },
      claimed,
    )
    else if any db.preparation_claims (is_claim_of approval_id)
    then (db, already_claimed)
    else if not (any db.approvals (is_available julianday approval_id task_id action_digest now))
    then (db, approval_unavailable)
    else (db, task_in_progress)

pub data PreparationError : Type 0 where
  invalid_result not_actively_claimed : PreparationError

unfoldable pub is_result : Text → Bool
is_result result =
    result == codes "succeeded" || result == codes "failed" || result == codes "interrupted"

abbrev pub is_active_claim_of : ℕ → PreparationClaim → Bool
is_active_claim_of approval_id claim = claim.approval_id == approval_id && is_active claim

abbrev pub completed_with : ℕ → Text → PreparationClaim → PreparationClaim
completed_with now result claim = record claim { result = some result; completed_at = some now }

-- `EventStore::complete_preparation_claim`.
unfoldable pub complete_preparation_claim :
    ℕ → ℕ → Text → TaskTables → TaskTables × Result PreparationError Unit
complete_preparation_claim now approval_id result db =
    if not (is_result result) then (db, err invalid_result) else (
      record db {
        preparation_claims =
            update_where (is_active_claim_of approval_id) (completed_with now result)
              db.preparation_claims;
      },
      if count (is_active_claim_of approval_id) db.preparation_claims == 1
          then ok tt
          else err not_actively_claimed,
    )

-- `EventStore::recover_interrupted_preparations`, when the store is opened.
unfoldable pub recover_interrupted_preparations : ℕ → TaskTables → TaskTables
recover_interrupted_preparations now db = record db {
  preparation_claims =
      update_where is_active (completed_with now (codes "interrupted")) db.preparation_claims;
}
