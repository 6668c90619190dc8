-- ===== src/Engine/TaskStore/Tests.antt =====
-- Claims at concrete inputs.
use patchwright.Prelude.{
  ◌≡◌, refl, Bool, false, none, some, List, [], ◌∷◌, list_eq, nat_eq, arith, decide,
}
use patchwright.Prelude.Text.{Text, codes}
use patchwright.Policy.Capabilities.{Capability-discrete, prepare_worktree}
use patchwright.Engine.TaskStore.{TaskTables}
use patchwright.Engine.TaskStore.Deliveries.{is_state, claim_delivery_with_task_event}
use patchwright.Engine.TaskStore.Preparations.{
  claimed, already_claimed, is_available, claim_preparation,
}
use patchwright.Engine.TaskStore.Ledger.{holds, Shows, claim_spec, claim-Shows}
use patchwright.Engine.TaskStore.Histories.{
  Outside, Operation, completes_delivery, claims_preparation, restarts, perform_all,
}
use patchwright.Engine.TaskStore.Exclusion.{records_failure, claim-claim}
use patchwright.Engine.TaskStore.Claims.{
  IsExclusive, perform_all-IsExclusive, claim_preparation-claim_preparation,
}
use patchwright.Policy.Tests.{approval}

abbrev pub no_tables : TaskTables
no_tables = record {
  tasks = [];
  task_events = [];
  task_contracts = [];
  repository_bindings = [];
  approvals = [];
  preparation_claims = [];
  deliveries = [];
}

-- A result is its own state.
abbrev pub plain : Outside
plain = record { state_of = some; julianday = λ at. at; digest = λ f. codes "d" }

abbrev nothing_held : Text → Bool
nothing_held key = false

no_tables-Shows : Shows some no_tables nothing_held
unfolding holds
no_tables-Shows = record { keyed = λ key. omega arith; shown = λ key. refl }

claim-Shows_example :
    ((claim_delivery_with_task_event some 5 (codes "k") none no_tables).1
      ≡ (claim_spec (codes "k") nothing_held).1)
    × Shows some
        (claim_delivery_with_task_event some 5 (codes "k") none no_tables).0
        (claim_spec (codes "k") nothing_held).0
claim-Shows_example = claim-Shows some 5 (codes "k") none no_tables nothing_held no_tables-Shows

abbrev between_claims : List Operation
between_claims = completes_delivery 6 (codes "k") (codes "succeeded") ∷ restarts 7 ∷ []

claim-claim_example :
    (claim_delivery_with_task_event some 8 (codes "k") none (
      perform_all plain between_claims
        (claim_delivery_with_task_event some 5 (codes "k") none no_tables).0)).1
    ≡ false
unfolding records_failure is_state
claim-claim_example =
    claim-claim plain (codes "k") 5 8 none none no_tables between_claims (λ key. omega arith)
      (refl, (refl, tt))

abbrev two_claims : List Operation
two_claims =
    claims_preparation 1 3 (codes "d") 5 ∷ restarts 6 ∷ claims_preparation 2 3 (codes "d") 7 ∷ []

perform_all-IsExclusive_example : IsExclusive (perform_all plain two_claims no_tables)
perform_all-IsExclusive_example = perform_all-IsExclusive plain two_claims no_tables refl

abbrev approved : TaskTables
approved = record no_tables {
  approvals =
      record {
        id = 1;
        task_id = 3;
        capability = prepare_worktree;
        action_digest = codes "d";
        payload = approval;
        expires_at = 90;
        invalidated_at = none;
      }
      ∷ [];
}

claim-approved : (claim_preparation (λ at. at) 1 3 (codes "d") 5 approved).1 ≡ claimed
unfolding claim_preparation is_available decide Capability-discrete
claim-approved = refl

claim_preparation-claim_preparation_example :
    (claim_preparation
      (λ at. at)
      1
      4
      (codes "e")
      9
      (perform_all plain two_claims (claim_preparation (λ at. at) 1 3 (codes "d") 5 approved).0)).1
    ≡ already_claimed
claim_preparation-claim_preparation_example =
    claim_preparation-claim_preparation plain 1 3 4 (codes "d") (codes "e") 5 9 approved two_claims
      claim-approved
