-- ===== src/Relay/Forwarder.antt =====
-- `forward_pending_once` of crates/patchwright-relay/src/webhook.rs: one batch of due deliveries is
-- handed to the engine. `decode` stands for serde_json's reading of an envelope and `julianday` for
-- SQLite's function, both code of other packages; `engine` says whether `forward_delivery` succeeds,
-- and `clock` gives the time at which a delivery's outcome is stored. No other operation runs
-- between the steps of a batch here.
pub mod Batches
pub mod Backoff
mod Tests
use patchwright.Prelude.{
  ℕ, ◌+◌, Bool, true, false, ◌&&◌, ◌||◌, Option, none, some, List, [], ◌∷◌, Result, ok, err, ◌>>=◌,
  retain, take, length, ltb, leb, if◌then◌else◌, ◌==◌, list_eq, nat_eq,
}
use patchwright.Prelude.Text.{Text}
use patchwright.Prelude.Sorting.{sort_by}
use patchwright.Relay.Inbox.{
  InboxRow, RelayState, InboxError, invalid_payload, forward_batch_size, is_pending, mark_forwarded,
  defer_delivery,
}

pub record ForwardedWebhook (Envelope : Type 0) : Type 0 where
  pub delivery_id : Text
  pub envelope : Envelope
  pub payload_sha256 : Text
  pub received_at : ℕ

pub record ForwardSummary : Type 0 where
  pub attempted : ℕ
  pub forwarded : ℕ

-- The order of texts in SQLite.
unfoldable pub text_leb : Text → Text → Bool
text_leb [] t = true
text_leb (c ∷ s) [] = false
text_leb (c ∷ s) (d ∷ t) = ltb c d || c == d && text_leb s t

-- `ORDER BY received_at, delivery_id`.
abbrev pub is_earlier : InboxRow → InboxRow → Bool
is_earlier a b =
    ltb a.received_at b.received_at
    || a.received_at == b.received_at && text_leb a.delivery_id b.delivery_id

-- `next_attempt_at IS NULL OR julianday(next_attempt_at) <= julianday(?1)`.
abbrev pub has_come : (ℕ → ℕ) → ℕ → Option ℕ → Bool
has_come julianday now none = true
has_come julianday now (some at) = leb (julianday at) (julianday now)

abbrev pub is_due : (ℕ → ℕ) → ℕ → InboxRow → Bool
is_due julianday now row = is_pending row && has_come julianday now row.next_attempt_at

abbrev pub due_rows : (ℕ → ℕ) → ℕ → List InboxRow → List InboxRow
due_rows julianday now rows =
    take forward_batch_size (sort_by is_earlier (retain (is_due julianday now) rows))

abbrev pub counted : ℕ → RelayState × Result InboxError Unit → RelayState × Result InboxError ℕ
counted n (state, ok _) = (state, ok n)
counted n (state, err e) = (state, err e)

abbrev pub summarised :
    ℕ → RelayState × Result InboxError ℕ → RelayState × Result InboxError ForwardSummary
summarised attempted (state, ok n) = (state, ok (record { attempted = attempted; forwarded = n }))
summarised attempted (state, err e) = (state, err e)

module _ {Envelope : Type 0} where
  abbrev pub to_webhook : InboxRow → Option Envelope → Result InboxError (ForwardedWebhook Envelope)
  to_webhook row none = err invalid_payload
  to_webhook row (some envelope) = ok (record {
    delivery_id = row.delivery_id;
    envelope = envelope;
    payload_sha256 = row.payload_sha256;
    received_at = row.received_at;
  })

  -- `rows.collect::<Result<Vec<_>, _>>()`.
  abbrev pub collect :
      (List ℕ → Option Envelope)
      → List InboxRow
      → Result InboxError (List (ForwardedWebhook Envelope))
  collect decode [] = ok []
  collect decode (row ∷ rows) = do
    webhook ← to_webhook row (decode row.payload)
    rest ← collect decode rows
    ok (webhook ∷ rest)

  -- `RelayState::due_deliveries`.
  unfoldable pub due_deliveries :
      (List ℕ → Option Envelope)
      → (ℕ → ℕ)
      → ℕ
      → RelayState
      → Result InboxError (List (ForwardedWebhook Envelope))
  due_deliveries decode julianday now state = collect decode (due_rows julianday now state.inbox)

  -- One round of the loop: how many deliveries it forwarded.
  unfoldable pub forward_one :
      (ForwardedWebhook Envelope → Bool)
      → (Text → ℕ)
      → ForwardedWebhook Envelope
      → RelayState
      → RelayState × Result InboxError ℕ
  forward_one engine clock delivery state =
      let id = delivery.delivery_id in
      if engine delivery
      then counted 1 (mark_forwarded (clock id) id state)
      else counted 0 (defer_delivery (clock id) id state)

  -- The loop, with the count of `summary.forwarded` so far.
  unfoldable pub forward_each :
      (ForwardedWebhook Envelope → Bool)
      → (Text → ℕ)
      → List (ForwardedWebhook Envelope)
      → ℕ
      → RelayState
      → RelayState × Result InboxError ℕ
  forward_each engine clock [] forwarded state = (state, ok forwarded)
  forward_each engine clock (delivery ∷ rest) forwarded state =
      let done = forward_one engine clock delivery state in
      elim done.1 [
        | ok n ↦ forward_each engine clock rest (forwarded + n) done.0
        | err e ↦ (done.0, err e)
      ]

  abbrev pub forward_batch :
      (ForwardedWebhook Envelope → Bool)
      → (Text → ℕ)
      → Result InboxError (List (ForwardedWebhook Envelope))
      → RelayState
      → RelayState × Result InboxError ForwardSummary
  forward_batch engine clock (ok deliveries) state =
      summarised (length deliveries) (forward_each engine clock deliveries 0 state)
  forward_batch engine clock (err e) state = (state, err e)

  -- `RelayState::forward_pending_once`.
  unfoldable pub forward_pending_once :
      (List ℕ → Option Envelope)
      → (ℕ → ℕ)
      → (ForwardedWebhook Envelope → Bool)
      → (Text → ℕ)
      → ℕ
      → RelayState
      → RelayState × Result InboxError ForwardSummary
  forward_pending_once decode julianday engine clock now state =
      forward_batch engine clock (due_deliveries decode julianday now state) state
