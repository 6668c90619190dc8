-- ===== src/Contract/Consistency.antt =====
-- What holds of every accepted contract (crates/patchwright-core/src/contract.rs).
use patchwright.Prelude.{
  All, map, any, ok, ◌≢◌, reject_if-eq-ok, ℕ, ◌≤◌, ◌≡◌, refl, subst, false, List, [], ◌∷◌, Option,
  some, ok, arith, is_empty, length, contains, nat_eq, list_eq, option_eq, same_option_iff,
}
use patchwright.Prelude.Text.{Text, trim}
use patchwright.Prelude.Text.Laws.{trim_idempotent}
use patchwright.Contract.Fields.{nonempty}
use patchwright.Contract.Source.{TaskSource, GitHubPullRequestSource, github_pull_request}
use patchwright.Contract.Parts.{collect_set}
use patchwright.Contract.Tasks.{
  TaskContractDraft, TaskContract, is_bad_criteria, is_unbound, is_bad_dependencies, try_from,
}
use patchwright.Contract.RoundTrips.{try_from-IsAccepted}

-- No element occurs again behind itself.
abbrev pub IsDistinct : List ℕ → Type 0
IsDistinct [] = Unit
IsDistinct (x ∷ xs) = (contains xs x ≡ false) × IsDistinct xs

contains-collect_set : (xs : List ℕ) (y : ℕ) → contains (collect_set xs) y ≡ contains xs y
unfolding collect_set
contains-collect_set [] y = refl
contains-collect_set (x ∷ xs) y =
    ground (arith, contains-collect_set xs y, contains-collect_set xs x)

length-collect_set : (xs : List ℕ) → length (collect_set xs) ≤ length xs
unfolding collect_set
length-collect_set [] = omega arith
length-collect_set (x ∷ xs) = ground (arith, length-collect_set xs)

collect_set-IsDistinct : (xs : List ℕ) → length (collect_set xs) ≡ length xs → IsDistinct xs
unfolding collect_set
collect_set-IsDistinct [] h = tt
collect_set-IsDistinct (x ∷ xs) h = (
  ground (arith, contains-collect_set xs x, length-collect_set xs),
  collect_set-IsDistinct xs (ground (arith, contains-collect_set xs x, length-collect_set xs)),
)

not_empty : {A : Type 0} (xs : List A) → is_empty xs ≡ false → xs ≢ []
not_empty [] h e = cc
not_empty (x ∷ xs) h e = cc

-- A text that is not blank and has no white space around it.
abbrev pub IsWritten : Text → Type 0
IsWritten text = (trim text ≡ text) × (text ≢ [])

map-trim-IsWritten :
    (texts : List Text) → any (map trim texts) is_empty ≡ false → All IsWritten (map trim texts)
map-trim-IsWritten [] h = tt
map-trim-IsWritten (t ∷ ts) h =
    ((trim_idempotent t, not_empty (trim t) (ground arith)), map-trim-IsWritten ts (ground arith))

criteria-IsWritten :
    (texts : List Text)
    → is_bad_criteria (map trim texts) ≡ false
    → (map trim texts ≢ []) × All IsWritten (map trim texts)
unfolding is_bad_criteria
criteria-IsWritten texts h =
    (not_empty (map trim texts) (ground arith), map-trim-IsWritten texts (ground arith))

goal-IsWritten : (goal : Text) → nonempty (trim goal) "goal" ≡ ok tt → IsWritten (trim goal)
unfolding nonempty
goal-IsWritten goal h = (
  trim_idempotent goal,
  not_empty (trim goal) (
      subst (λ text. is_empty text ≡ false) (trim_idempotent goal)
        (reject_if-eq-ok (is_empty (trim (trim goal))) _ h)),
)

-- What a contract that was accepted promises.
pub record IsConsistent (c : TaskContract) : Type 0 where
  pub bound :
      (pull_request : GitHubPullRequestSource)
      → c.source ≡ github_pull_request pull_request
      → (c.base_sha ≡ some pull_request.base_sha) × (c.head_sha ≡ some pull_request.head_sha)
  pub distinct : IsDistinct c.dependencies
  pub independent : contains c.dependencies c.task_id ≡ false
  pub verified : is_empty c.verification_commands ≡ false
  pub criteria : (c.acceptance_criteria ≢ []) × All IsWritten c.acceptance_criteria
  pub goal : IsWritten c.goal

is_unbound-bound :
    (s : TaskSource) (base head : Option Text) (p : GitHubPullRequestSource)
    → is_unbound s base head ≡ false
    → s ≡ github_pull_request p
    → (base ≡ some p.base_sha) × (head ≡ some p.head_sha)
unfolding is_unbound
is_unbound-bound s base head p h e =
    let k = subst (λ s. is_unbound s base head ≡ false) e h in
    (
      (same_option_iff base (some p.base_sha)).0 (ground (arith, k)),
      (same_option_iff head (some p.head_sha)).0 (ground (arith, k)),
    )

independent_kept :
    (t : ℕ) (ds : List ℕ)
    → is_bad_dependencies t ds ≡ false
    → IsDistinct ds × (contains ds t ≡ false)
unfolding is_bad_dependencies
independent_kept t ds h =
    (collect_set-IsDistinct ds (ground arith), ground (arith, contains-collect_set ds t))

-- A contract that is accepted has the commits of its pull request, dependencies without repetition
-- that leave out the task itself and at least one verification command. It has a goal and at least
-- one criterion, each of them a text that is not blank and has no white space around it.
pub try_from-IsConsistent :
    (d : TaskContractDraft) (c : TaskContract) → try_from d ≡ ok c → IsConsistent c
try_from-IsConsistent d c e =
    let a = try_from-IsAccepted d c e in
    let ds = independent_kept d.task_id d.dependencies a.dependencies in
    subst IsConsistent a.same (record {
      bound = λ p. is_unbound-bound d.source d.base_sha d.head_sha p a.bound;
      distinct = ds.0;
      independent = ds.1;
      verified = a.commands;
      criteria = criteria-IsWritten d.acceptance_criteria a.criteria;
      goal = goal-IsWritten d.goal a.goal;
    })
