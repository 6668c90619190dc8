-- ===== src/Engine/Monitoring/Runs.antt =====
-- What any sequence of calls does to a monitor (crates/patchwright-engine/src/monitoring.rs).
use patchwright.Prelude.{
  ℕ, ◌≤◌, ◌≡◌, ◌+◌, refl, Bool, true, false, not, ◌&&◌, ◌||◌, Option, none, some, List, [], ◌∷◌,
  arith, leb, if◌then◌else◌, Result, ok, err, ◌==◌, list_eq, nat_eq, >>-eq-ok, ◌>>◌, subst, any,
  reject_if, ok-injective, if_both, Bool-cases, inl, inr, ap, ◌∙◌,
}
use Prim.Native.String.{String}
use patchwright.Prelude.Text.{Text, is_whitespace}
use patchwright.Engine.Monitoring.{
  RemoteObservation, MonitorRecord, MonitorOutcome, MonitorState, repair_needed, Mergeability,
  mergeable, unknown, conflicting, inaccessible_fork, is_terminal, is_waiting, schedule, block,
  is_success, observe_results, observe_mergeability, still_limited, observe_limited, observe_valid,
  noted, observe, wake, cancel, new, fresh, has_no_slash, invalid_repository, invalid_pull_request,
  invalid_repair_budget, Summary, is_sha, terminal, validate_sha, MonitoringError,
}

-- One call on a monitor, with any arguments.
pub data Call : Type 0 where
  observes : (now : ℕ) (o : RemoteObservation) → Call
  wakes cancels : (now : ℕ) → Call

-- One for an outcome that asks for a repair.
abbrev pub asks : MonitorState → ℕ
asks repair_needed = 1
asks _ = 0

abbrev pub requests : Result MonitoringError MonitorOutcome → ℕ
requests (ok o) = asks o.state
requests (err e) = 0

unfoldable pub call : Call → MonitorRecord → MonitorRecord
call (observes now o) m = (observe now o m).0
call (wakes now) m = (wake now m).0
call (cancels now) m = (cancel now m).0

abbrev requested : Call → MonitorRecord → ℕ
requested (observes now o) m = requests (observe now o m).1
requested (wakes now) m = 0
requested (cancels now) m = 0

unfoldable pub run : List Call → MonitorRecord → MonitorRecord
run [] m = m
run (c ∷ cs) m = run cs (call c m)

-- The repairs that a sequence of calls asks for.
unfoldable pub repairs : List Call → MonitorRecord → ℕ
repairs [] m = 0
repairs (c ∷ cs) m = requested c m + repairs cs (call c m)

abbrev has_time : Option ℕ → Bool
has_time none = false
has_time (some t) = true

-- A monitor within its budget that has a next attempt exactly while it waits.
pub record IsScheduled (m : MonitorRecord) : Type 0 where
  pub within : m.repair_iteration ≤ m.repair_budget
  pub due : has_time m.next_attempt_at ≡ is_waiting m.state

-- What a step that asked for `n` repairs left of the counts of a monitor.
record Counts (budget iteration n : ℕ) (m : MonitorRecord) : Type 0 where
  kept : m.repair_budget ≡ budget
  counted : m.repair_iteration ≡ iteration + n
  within : iteration ≤ budget → m.repair_iteration ≤ m.repair_budget
  due : has_time m.next_attempt_at ≡ is_waiting m.state

abbrev CountsOutcome : MonitorRecord → MonitorRecord × MonitorOutcome → Type 0
CountsOutcome m (after, o) = Counts m.repair_budget m.repair_iteration (asks o.state) after

schedule-Counts :
    (now : ℕ) (summary : Summary) (m : MonitorRecord) → CountsOutcome m (schedule now summary m)
unfolding schedule is_waiting
schedule-Counts now summary m = record {
  kept = refl;
  counted = omega arith;
  within = λ h. h;
  due = refl;
}

block-Counts :
    (summary : Summary) (invalidate : Bool) (m : MonitorRecord)
    → CountsOutcome m (block summary invalidate m)
unfolding block is_waiting
block-Counts summary invalidate m = record {
  kept = refl;
  counted = omega arith;
  within = λ h. h;
  due = refl;
}

observe_results-Counts :
    (now : ℕ) (o : RemoteObservation) (reason : Option String) (m : MonitorRecord)
    → CountsOutcome m (observe_results now o reason m)
unfolding observe_results is_waiting
observe_results-Counts now o none m = elim (Bool-cases (is_success o.ci o.review)) [
  | inl e ↦ rw e (record { kept = refl; counted = omega arith; within = λ h. h; due = refl })
  | inr e ↦ rw e (schedule-Counts now _ m)
]
observe_results-Counts now o (some reason) m =
    elim (Bool-cases (leb m.repair_budget m.repair_iteration)) [
      | inl e ↦ rw e (block-Counts _ _ m)
      | inr e ↦
          rw e (record { kept = refl; counted = refl; within = λ h. ground arith; due = refl })
    ]

observe_mergeability-Counts :
    (now : ℕ) (o : RemoteObservation) (merge : Mergeability) (m : MonitorRecord)
    → CountsOutcome m (observe_mergeability now o merge m)
unfolding observe_mergeability
observe_mergeability-Counts now o unknown m = schedule-Counts now _ m
observe_mergeability-Counts now o conflicting m = block-Counts _ _ m
observe_mergeability-Counts now o inaccessible_fork m = block-Counts _ _ m
observe_mergeability-Counts now o mergeable m = observe_results-Counts now o _ m

-- A ladder of guards keeps what each end keeps.
Counts-guards :
    (a b c : Bool) (m : MonitorRecord) (x y z rest : MonitorRecord × MonitorOutcome)
    → CountsOutcome m x
    → CountsOutcome m y
    → CountsOutcome m z
    → CountsOutcome m rest
    → CountsOutcome m (if not a then x else if not b then y else if not c then z else rest)
Counts-guards false b c m x y z rest hx hy hz h = hx
Counts-guards true false c m x y z rest hx hy hz h = hy
Counts-guards true true false m x y z rest hx hy hz h = hz
Counts-guards true true true m x y z rest hx hy hz h = h

observe_limited-Counts :
    (now : ℕ) (o : RemoteObservation) (limit : Option ℕ) (m : MonitorRecord)
    → CountsOutcome m (observe_limited now o limit m)
unfolding observe_limited is_waiting
observe_limited-Counts now o (some until) m = record {
  kept = refl;
  counted = omega arith;
  within = λ h. h;
  due = refl;
}
observe_limited-Counts now o none m =
    Counts-guards o.repository_accessible (o.head_sha == m.expected_head_sha)
      (o.base_sha == m.expected_base_sha) m _ _ _ _ (block-Counts _ _ m) (block-Counts _ _ m)
      (block-Counts _ _ m) (observe_mergeability-Counts now o o.mergeability m)

observe_valid-Counts :
    (now : ℕ) (o : RemoteObservation) (m : MonitorRecord) → CountsOutcome m (observe_valid now o m)
unfolding observe_valid
observe_valid-Counts now o m =
    if_both (CountsOutcome m) (not o.network_available) _ _ (λ e. schedule-Counts now _ m)
      (λ e. observe_limited-Counts now o (still_limited now o.rate_limited_until) m)

idle-Counts : (m : MonitorRecord) → IsScheduled m → Counts m.repair_budget m.repair_iteration 0 m
idle-Counts m h = record { kept = refl; counted = omega arith; within = λ h. h; due = h.due }

abbrev CountsReply : MonitorRecord → MonitorRecord × Result MonitoringError MonitorOutcome → Type 0
CountsReply m (after, reply) = Counts m.repair_budget m.repair_iteration (requests reply) after

abbrev CountsChange : MonitorRecord → MonitorRecord × Bool → Type 0
CountsChange m (after, changed) = Counts m.repair_budget m.repair_iteration 0 after

observe-Counts :
    (now : ℕ) (o : RemoteObservation) (m : MonitorRecord)
    → IsScheduled m
    → CountsReply m (observe now o m)
unfolding observe
observe-Counts now o m h =
    if_both (CountsReply m) (is_terminal m.state) _ _ (λ e. idle-Counts m h)
      (λ e.
        if_both (CountsReply m) (not (is_sha o.head_sha && is_sha o.base_sha)) _ _
          (λ e. idle-Counts m h) (λ f. observe_valid-Counts now o (noted now o m)))

wake-Counts : (now : ℕ) (m : MonitorRecord) → IsScheduled m → CountsChange m (wake now m)
unfolding wake
wake-Counts now m h =
    if_both (CountsChange m) (not (is_waiting m.state)) _ _ (λ e. idle-Counts m h)
      (λ e. record { kept = refl; counted = omega arith; within = λ h. h; due = ground arith })

cancel-Counts : (now : ℕ) (m : MonitorRecord) → IsScheduled m → CountsChange m (cancel now m)
unfolding cancel is_waiting
cancel-Counts now m h =
    if_both (CountsChange m) (is_terminal m.state) _ _ (λ e. idle-Counts m h)
      (λ e. record { kept = refl; counted = omega arith; within = λ h. h; due = refl })

call-Counts :
    (c : Call) (m : MonitorRecord)
    → IsScheduled m
    → Counts m.repair_budget m.repair_iteration (requested c m) (call c m)
unfolding call
call-Counts (observes now o) m h = observe-Counts now o m h
call-Counts (wakes now) m h = wake-Counts now m h
call-Counts (cancels now) m h = cancel-Counts now m h

Counts-IsScheduled :
    {budget iteration n : ℕ} {m : MonitorRecord}
    → Counts budget iteration n m
    → iteration ≤ budget
    → IsScheduled m
Counts-IsScheduled c h = record { within = c.within h; due = c.due }

run-counts :
    (cs : List Call) (m : MonitorRecord)
    → IsScheduled m
    → IsScheduled (run cs m)
      × ((run cs m).repair_budget ≡ m.repair_budget)
      × ((run cs m).repair_iteration ≡ m.repair_iteration + repairs cs m)
unfolding run repairs
run-counts [] m h = (h, refl, omega arith)
run-counts (c ∷ cs) m h =
    let step = call-Counts c m h in
    let rest = run-counts cs (call c m) (Counts-IsScheduled step h.within) in
    (rest.0, rest.1 ∙ step.kept, omega (arith, rest.2, step.counted))

-- The end of a chain of checks that all passed.
passed :
    {E A : Type 0} (a b c : Bool) (f g h : E) (first second : Result E (Unit {0})) (made : A)
    {m : A}
    → (reject_if a f >> (reject_if b g >> (first >> (second >> (reject_if c h >> ok made))))) ≡ ok m
    → made ≡ m
passed a b c f g h first second made e =
    let one = >>-eq-ok (reject_if a f) _ e in
    let two = >>-eq-ok (reject_if b g) _ one.1 in
    let three = >>-eq-ok first _ two.1 in
    let four = >>-eq-ok second _ three.1 in ok-injective (>>-eq-ok (reject_if c h) _ four.1).1

fresh-eq :
    (id task_id : ℕ) (name : Text) (number : ℕ) (head base : Text) (now budget : ℕ)
    {m : MonitorRecord}
    → new id task_id name number head base now budget ≡ ok m
    → fresh id task_id name number head base now budget ≡ m
unfolding new
fresh-eq id task_id name number head base now budget =
    passed (has_no_slash name || any name is_whitespace) (number == 0) (budget == 0)
      invalid_repository invalid_pull_request invalid_repair_budget (validate_sha head)
      (validate_sha base) (fresh id task_id name number head base now budget)

fresh-IsScheduled :
    (id task_id : ℕ) (name : Text) (number : ℕ) (head base : Text) (now budget : ℕ)
    → IsScheduled (fresh id task_id name number head base now budget)
unfolding is_waiting
fresh-IsScheduled id task_id name number head base now budget = record {
  within = omega arith;
  due = refl;
}

-- Whatever calls a new monitor gets, it has a next attempt exactly while it waits, and the repairs
-- that it asks for in all are at most its budget.
pub run-IsScheduled :
    (id task_id : ℕ) (name : Text) (number : ℕ) (head base : Text) (now budget : ℕ)
    (m : MonitorRecord) (cs : List Call)
    → new id task_id name number head base now budget ≡ ok m
    → IsScheduled (run cs m) × (repairs cs m ≤ budget)
run-IsScheduled id task_id name number head base now budget m cs e =
    let first = fresh id task_id name number head base now budget in
    let end = run-counts cs first (fresh-IsScheduled id task_id name number head base now budget) in
    subst (λ start. IsScheduled (run cs start) × (repairs cs start ≤ budget))
      (fresh-eq id task_id name number head base now budget e)
      (end.0, omega (arith, end.0.within, end.1, end.2))

observe-closed :
    (now : ℕ) (o : RemoteObservation) (m : MonitorRecord)
    → is_terminal m.state ≡ true
    → observe now o m ≡ (m, err terminal)
unfolding observe
observe-closed now o m h = ground arith

call-closed : (c : Call) (m : MonitorRecord) → is_terminal m.state ≡ true → call c m ≡ m
unfolding call wake cancel is_terminal is_waiting
call-closed (observes now o) m h = ap (λ (p : MonitorRecord × _). p.0) (observe-closed now o m h)
call-closed (wakes now) m h = ground arith
call-closed (cancels now) m h = ground arith

requested-closed : (c : Call) (m : MonitorRecord) → is_terminal m.state ≡ true → requested c m ≡ 0
requested-closed (observes now o) m h =
    ap (λ (p : MonitorRecord × Result MonitoringError MonitorOutcome). requests p.1)
      (observe-closed now o m h)
requested-closed (wakes now) m h = refl
requested-closed (cancels now) m h = refl

-- No sequence of calls changes a monitor that has ended or asks it for a repair.
pub run-closed :
    (cs : List Call) (m : MonitorRecord)
    → is_terminal m.state ≡ true
    → (run cs m ≡ m) × (repairs cs m ≡ 0)
unfolding run repairs
run-closed [] m h = (refl, refl)
run-closed (c ∷ cs) m h =
    let same = call-closed c m h in
    let rest = run-closed cs m h in
    (rw same rest.0, omega (arith, requested-closed c m h, ap (repairs cs) same, rest.1))
