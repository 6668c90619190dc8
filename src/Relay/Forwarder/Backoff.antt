-- ===== src/Relay/Forwarder/Backoff.antt =====
-- When a deferred delivery is tried again (crates/patchwright-relay/src/webhook.rs).
use patchwright.Prelude.{
  ℕ, ◌+◌, ◌*◌, ◌≤◌, ◌≡◌, refl, inl, inr, true, Option, none, some, ok, All, Bool-cases, leb, le→leb,
  arith, find, &&-eq-true,
}
use patchwright.Prelude.Text.{Text}
use patchwright.Prelude.Tables.{All-update_where, All-always}
use patchwright.Relay.Inbox.{
  InboxRow, RelayState, max_u32, is_pending, is_pending_delivery, backoff, deferred, defer_found,
  defer_delivery, nanos_per_milli,
}
use patchwright.Relay.Forwarder.{is_due}

backoff-le : (attempts : ℕ) → backoff attempts ≤ 60000
unfolding backoff
backoff-le attempts = ground arith

-- A delivery deferred at `t` comes due.
deferred-due :
    (julianday : ℕ → ℕ) (t now attempts : ℕ) (row : InboxRow)
    → ((a b : ℕ) → a ≤ b → julianday a ≤ julianday b)
    → t + 60000 * nanos_per_milli ≤ now
    → is_pending row ≡ true
    → is_due julianday now (deferred t attempts row) ≡ true
deferred-due julianday t now attempts row mono later waits =
    rw
      (
        waits,
        le→leb _ _ (
            mono (t + backoff attempts * nanos_per_milli) now
              (omega (arith, backoff-le attempts, later))),
      )
      refl

defer_found-due :
    (julianday : ℕ → ℕ) (t now : ℕ) (id : Text) (found : Option InboxRow) (state : RelayState)
    → ((a b : ℕ) → a ≤ b → julianday a ≤ julianday b)
    → (defer_found t id found state).1 ≡ ok tt
    → t + 60000 * nanos_per_milli ≤ now
    → All
        (λ row. is_pending_delivery id row ≡ true → is_due julianday now row ≡ true)
        (defer_found t id found state).0.inbox
unfolding defer_found
defer_found-due julianday t now id none state mono done later = cc
defer_found-due julianday t now id (some read) state mono done later =
    elim (Bool-cases (leb read.attempt_count max_u32)) [
      | inl fits ↦ rw fits (
          All-update_where
            (λ row. is_pending_delivery id row ≡ true → is_due julianday now row ≡ true)
            (is_pending_delivery id) (deferred t read.attempt_count) state.inbox
            (All-always
              (λ row. (
                λ hit still.
                    deferred-due julianday t now read.attempt_count row mono later
                      (&&-eq-true _ _ hit).1,
                λ missed hit. cc,
              ))
              state.inbox))
      | inr over ↦ cc (rw over at done)
    ]

-- After a delivery is deferred, it is due again one minute later at the latest, if `julianday`
-- keeps the order of times.
pub defer_delivery-due :
    (julianday : ℕ → ℕ) (t now : ℕ) (id : Text) (state : RelayState)
    → ((a b : ℕ) → a ≤ b → julianday a ≤ julianday b)
    → (defer_delivery t id state).1 ≡ ok tt
    → t + 60000 * nanos_per_milli ≤ now
    → All
        (λ row. is_pending_delivery id row ≡ true → is_due julianday now row ≡ true)
        (defer_delivery t id state).0.inbox
unfolding defer_delivery
defer_delivery-due julianday t now id state mono done later =
    defer_found-due julianday t now id (find (is_pending_delivery id) state.inbox) state mono done
      later
