-- ===== src/Sorting/Filtering.antt =====
-- Which pull requests a filter lets through (crates/patchwright-core/src/sorting.rs).
use mathlib.Core.List.{Memᴰ}
use patchwright.Prelude.{
  ℕ, ◌+◌, ◌*◌, ◌≤◌, ◌≡◌, ◌↔◌, ◌⊎◌, subst, sym, refl, Bool, true, false, Option, none, some, [],
  arith, if◌then◌else◌, option_eq, bool_eq, list_eq, nat_eq,
}
use mathlib.Core.Option.{some-injective}
use patchwright.Prelude.Text.{Text}
use patchwright.Sorting.{
  ReviewState, CiHealth, PullRequestQueueState, PullRequestQueueRecord, WorkspaceFilter,
  nanos_per_day, matches, matches_first, matches_last, reaches, is_young, and_later,
  review_state_eq, ci_health_eq, queue_state_eq,
}
use patchwright.Sorting.Conditions.{
  Asks, and_iff, is_none_or_iff, empty_or_iff, is_some_and_iff, contains_iff, any_iff,
}

-- What a filter asks of a pull request apart from its age, its place in the queue and its sessions,
-- field by field: an option that is set, and a set that is not empty, each have a condition.
abbrev pub AllowsFirst : WorkspaceFilter → PullRequestQueueRecord → Type 0
AllowsFirst f r =
    Asks f.is_open (λ expected. r.is_open ≡ expected)
    × (Asks f.draft (λ expected. r.draft ≡ expected)
        × (((f.authors ≡ []) ⊎ Memᴰ r.author f.authors)
            × (((f.assignees ≡ []) ⊎ ((a : Text) × Memᴰ a r.assignees × Memᴰ a f.assignees))
                × (((f.labels ≡ []) ⊎ ((a : Text) × Memᴰ a r.labels × Memᴰ a f.labels))
                    × (((f.review_states ≡ [])
                          ⊎ ((s : ReviewState) × (r.review_state ≡ some s)
                              × Memᴰ s f.review_states))
                        × (((f.ci_results ≡ [])
                              ⊎ ((c : CiHealth) × (r.ci_health ≡ some c) × Memᴰ c f.ci_results))
                            × Asks f.has_conflicts
                                (λ expected. r.has_conflicts ≡ some expected)))))))

-- What it asks of the place in the queue and the sessions.
abbrev pub AllowsLast : WorkspaceFilter → PullRequestQueueRecord → Type 0
AllowsLast f r =
    ((f.queue_states ≡ [])
      ⊎ ((q : PullRequestQueueState) × (r.queue_state ≡ some q) × Memᴰ q f.queue_states))
    × Asks f.active_codex_work (λ expected. r.active_codex_work ≡ expected)

-- All that a filter asks: that many days have not passed since the update, too.
pub record Allows (f : WorkspaceFilter) (r : PullRequestQueueRecord) (now : ℕ) : Type 0 where
  pub first : AllowsFirst f r
  pub young : Asks f.maximum_age_days (λ days. now ≤ r.updated_at + days * nanos_per_day)
  pub last : AllowsLast f r

-- What chrono documents of a time that it can hold: it is that many days before. Times are counted
-- from the earliest that it can hold.
abbrev pub IsDaysBefore : (ℕ → ℕ → Option ℕ) → Type 0
IsDaysBefore days_before =
    (now days earliest : ℕ)
    → days_before now days ≡ some earliest
    → earliest + days * nanos_per_day ≡ now

-- The time that the age is measured from is one that chrono can hold.
abbrev pub InRange : (ℕ → ℕ → Option ℕ) → WorkspaceFilter → ℕ → Type 0
InRange days_before f now =
    Asks f.maximum_age_days (λ days. (earliest : ℕ) × (days_before now days ≡ some earliest))

-- The age asks for a time that chrono cannot hold.
abbrev pub OutOfRange : (ℕ → ℕ → Option ℕ) → WorkspaceFilter → ℕ → Type 0
OutOfRange days_before f now =
    (days : ℕ) × (f.maximum_age_days ≡ some days) × (days_before now days ≡ none)

matches_first-iff_Allows :
    (f : WorkspaceFilter) (r : PullRequestQueueRecord)
    → (matches_first f r ≡ true) ↔ AllowsFirst f r
unfolding matches_first
matches_first-iff_Allows f r =
    and_iff _ _ (is_none_or_iff f.is_open _ (bool_eq.same_iff r.is_open)) (
      and_iff _ _ (is_none_or_iff f.draft _ (bool_eq.same_iff r.draft)) (
        and_iff _ _ (empty_or_iff f.authors _ (contains_iff f.authors r.author)) (
          and_iff _ _
            (empty_or_iff f.assignees _ (any_iff r.assignees _ (contains_iff f.assignees)))
            (and_iff _ _ (empty_or_iff f.labels _ (any_iff r.labels _ (contains_iff f.labels))) (
              and_iff _ _
                (empty_or_iff f.review_states _
                  (is_some_and_iff r.review_state _ (contains_iff f.review_states)))
                (and_iff _ _
                  (empty_or_iff f.ci_results _
                    (is_some_and_iff r.ci_health _ (contains_iff f.ci_results)))
                  (is_none_or_iff f.has_conflicts _
                    (λ expected. option_eq.same_iff r.has_conflicts (some expected)))))))))

matches_last-iff_Allows :
    (f : WorkspaceFilter) (r : PullRequestQueueRecord) → (matches_last f r ≡ true) ↔ AllowsLast f r
unfolding matches_last
matches_last-iff_Allows f r =
    and_iff _ _
      (empty_or_iff f.queue_states _
        (is_some_and_iff r.queue_state _ (contains_iff f.queue_states)))
      (is_none_or_iff f.active_codex_work _ (bool_eq.same_iff r.active_codex_work))

reaches_iff :
    (found : Option ℕ) (updated_at distance now : ℕ)
    → ((earliest : ℕ) → found ≡ some earliest → earliest + distance ≡ now)
    → (reaches found updated_at ≡ some true)
      ↔ ((now ≤ updated_at + distance) × (earliest : ℕ) × (found ≡ some earliest))
reaches_iff none updated_at distance now h = (λ e. cc, λ (_, t, e). cc)
reaches_iff (some t) updated_at distance now h =
    (λ e. (ground (arith, h t refl), t, refl), λ (near, _, _). ground (arith, h t refl))

is_young_iff :
    (days_before : ℕ → ℕ → Option ℕ) (age : Option ℕ) (updated_at now : ℕ)
    → IsDaysBefore days_before
    → (is_young days_before age updated_at now ≡ some true) ↔ (
        Asks age (λ days. now ≤ updated_at + days * nanos_per_day)
        × Asks age (λ days. (earliest : ℕ) × (days_before now days ≡ some earliest)))
unfolding is_young
is_young_iff days_before none updated_at now h = (λ _. (λ a e. cc, λ a e. cc), λ _. refl)
is_young_iff days_before (some days) updated_at now h =
    let r = reaches_iff (days_before now days) updated_at (days * nanos_per_day) now (h now days) in
    (
      λ e.
          let k = r.0 e in
          (
            λ a same.
                subst (λ d. now ≤ updated_at + d * nanos_per_day) (some-injective days a same) k.0,
            λ a same.
                subst (λ d. (earliest : ℕ) × (days_before now d ≡ some earliest))
                  (some-injective days a same) (k.1, k.2),
          ),
      λ (near, within). let w = within days refl in r.1 (near days refl, w.0, w.1),
    )

reaches-none : (found : Option ℕ) (updated_at : ℕ) → reaches found updated_at ≡ none → found ≡ none
reaches-none none updated_at e = refl
reaches-none (some t) updated_at e = cc

is_young-none :
    (days_before : ℕ → ℕ → Option ℕ) (age : Option ℕ) (updated_at now : ℕ)
    → (is_young days_before age updated_at now ≡ none)
      ↔ ((days : ℕ) × (age ≡ some days) × (days_before now days ≡ none))
unfolding is_young
is_young-none days_before none updated_at now = (λ e. cc, λ (d, e, _). cc)
is_young-none days_before (some days) updated_at now = (
  λ e. (days, refl, reaches-none (days_before now days) updated_at e),
  λ (d, same, missing).
      rw (subst (λ x. days_before now x ≡ none) (sym (some-injective days d same)) missing) refl,
)

-- The three stretches of tests together.
joined :
    (first last : Bool) (young : Option Bool)
    → (((if first then and_later young last else some false) ≡ some true)
        ↔ ((first ≡ true) × (young ≡ some true) × (last ≡ true)))
      × (((if first then and_later young last else some false) ≡ none)
          ↔ ((first ≡ true) × (young ≡ none)))
joined false last young = ((λ e. cc, λ (e, _, _). cc), (λ e. cc, λ (e, _). cc))
joined true last none = ((λ e. cc, λ (_, e, _). cc), (λ e. (refl, refl), λ _. refl))
joined true last (some y) =
    ((λ e. ground arith, λ (_, e, k). ground arith), (λ e. cc, λ (_, e). cc))

-- A filter, its days taken back from now by chrono, lets a pull request through exactly when that
-- time is one that chrono can hold and each of its options that is set, and each of its sets that is
-- not empty, allows it: a set of labels or assignees by a common member, a set of states only if the
-- state is known, and an age if that many days have not passed since the update. It panics exactly
-- when chrono cannot hold the time and all that is asked before the age is met.
pub matches-iff_Allows :
    (days_before : ℕ → ℕ → Option ℕ) (f : WorkspaceFilter) (r : PullRequestQueueRecord) (now : ℕ)
    → IsDaysBefore days_before
    → ((matches days_before f r now ≡ some true) ↔ (Allows f r now × InRange days_before f now))
      × ((matches days_before f r now ≡ none) ↔ (AllowsFirst f r × OutOfRange days_before f now))
unfolding matches
matches-iff_Allows days_before f r now h =
    let j =
      joined (matches_first f r) (matches_last f r)
        (is_young days_before f.maximum_age_days r.updated_at now) in
    let first = matches_first-iff_Allows f r in
    let last = matches_last-iff_Allows f r in
    let young = is_young_iff days_before f.maximum_age_days r.updated_at now h in
    let lost = is_young-none days_before f.maximum_age_days r.updated_at now in
    (
      (
        λ e.
            let k = j.0.0 e in
            let y = young.0 (k.1) in
            (record { first = first.0 (k.0); young = y.0; last = last.0 (k.2) }, y.1),
        λ (a, within). j.0.1 (first.1 a.first, young.1 (a.young, within), last.1 a.last),
      ),
      (
        λ e. let k = j.1.0 e in (first.0 (k.0), lost.0 (k.1)),
        λ k. j.1.1 (first.1 (k.0), lost.1 k.1),
      ),
    )
