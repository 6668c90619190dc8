-- ===== src/Domain/Tests.antt =====
-- Runs of the task lifecycle, and its theorems at concrete inputs.
use patchwright.Prelude.{◌≡◌, refl, true, none, List, [], ◌∷◌, ok, err, arith, decide}
use patchwright.Prelude.Text.{Text, codes, trim, starts_with}
use patchwright.Contract.Fields.{is_absolute}
use patchwright.Contract.Source.{local_request}
use patchwright.Domain.{
  Task, TaskState-discrete, discovered, assessing, planned, awaiting_preparation_approval,
  preparing, implementing, verifying, reviewing, awaiting_delivery_approval, delivering, monitoring,
  awaiting_merge_approval, merging, paused, failed, invalid_transition, new, transition, interrupt,
  resume, is_terminal, is_recoverable_interruption,
}
use patchwright.Domain.Consistency.{
  IsConsistent, is_active, operations-IsConsistent, failure_changes_nothing, new-IsConsistent,
}
use patchwright.Domain.Lifecycle.{
  Call, transition_to, interrupt_with, resume_it, call, run, visits, progress,
}
use patchwright.Domain.Milestones.{run-visits_every_stage, run-merging_needs_approval}
use patchwright.Domain.Recovery.{resume-interrupt, run-terminal}

abbrev title : Text
title = codes " Fix "

abbrev path : Text
path = codes "/r"

abbrev sample : Task
sample = record {
  id = 1;
  title = codes "Fix";
  repository_path = path;
  state = discovered;
  created_at = 5;
  updated_at = 5;
  interruption = none;
  source = local_request;
  repository_binding_id = none;
  contract_version = 1;
  checkpoint_id = none;
}

new-sample : new 1 5 title path ≡ ok sample
unfolding new trim is_absolute starts_with
new-sample = refl

sample-IsConsistent : IsConsistent sample
sample-IsConsistent = new-IsConsistent 1 5 title path new-sample

abbrev road : List Call
road =
    transition_to 6 assessing
    ∷ transition_to 7 planned
    ∷ transition_to 8 awaiting_preparation_approval
    ∷ interrupt_with 9 paused (codes "wait")
    ∷ resume_it 10
    ∷ transition_to 11 preparing
    ∷ transition_to 12 implementing
    ∷ transition_to 13 verifying
    ∷ transition_to 14 reviewing
    ∷ transition_to 15 awaiting_delivery_approval
    ∷ transition_to 16 delivering
    ∷ transition_to 17 monitoring
    ∷ transition_to 18 awaiting_merge_approval
    ∷ transition_to 19 merging
    ∷ []

road_merges : progress (run road sample) ≡ merging
unfolding run call transition interrupt resume trim decide TaskState-discrete
road_merges = refl

run-visits_every_stage_example : visits awaiting_delivery_approval road sample ≡ true
run-visits_every_stage_example =
    run-visits_every_stage 1 5 title path sample road awaiting_delivery_approval new-sample
      (omega arith) (rw road_merges (omega arith))

run-merging_needs_approval_example : visits awaiting_merge_approval road sample ≡ true
run-merging_needs_approval_example =
    run-merging_needs_approval 1 5 title path sample road new-sample road_merges

operations-IsConsistent_example :
    IsConsistent (transition 6 assessing sample).0
    × IsConsistent (interrupt 6 assessing (codes "wait") sample).0
    × IsConsistent (resume 6 sample).0
operations-IsConsistent_example =
    operations-IsConsistent 6 assessing (codes "wait") sample sample-IsConsistent

skip_fails : (transition 6 delivering sample).1 ≡ err (invalid_transition discovered delivering)
unfolding transition
skip_fails = refl

failure_changes_nothing_example :
    ((transition 6 delivering sample).1 ≡ err (invalid_transition discovered delivering)
      → (transition 6 delivering sample).0 ≡ sample)
    × ((interrupt 6 delivering (codes "x") sample).1
          ≡ err (invalid_transition discovered delivering)
        → (interrupt 6 delivering (codes "x") sample).0 ≡ sample)
    × ((resume 6 sample).1 ≡ err (invalid_transition discovered delivering)
        → (resume 6 sample).0 ≡ sample)
failure_changes_nothing_example =
    failure_changes_nothing 6 delivering (codes "x") sample
      (invalid_transition discovered delivering)

resume-interrupt_example :
    ((interrupt 6 paused (codes "wait") sample).1 ≡ ok tt)
    × (resume 7 (interrupt 6 paused (codes "wait") sample).0
        ≡ (record sample { updated_at = 7 }, ok tt))
unfolding is_active is_recoverable_interruption trim
resume-interrupt_example =
    resume-interrupt 6 7 paused (codes "wait") sample sample-IsConsistent refl refl refl

abbrev stopped : Task
stopped = record sample { state = failed }

run-terminal_example : run road stopped ≡ stopped
unfolding is_terminal
run-terminal_example = run-terminal road stopped refl
