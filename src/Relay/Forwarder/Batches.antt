-- ===== src/Relay/Forwarder/Batches.antt =====
-- What one batch does to the deliveries that wait (crates/patchwright-relay/src/webhook.rs).
use patchwright.Prelude.{
  ℕ, ◌+◌, ◌≤◌, ◌≡◌, refl, sym, ap, ◌∙◌, inl, inr, Bool, Option, List, [], ◌∷◌, Result, ok, err,
  Bool-cases, count, take, length, zero, suc, arith, ok-injective, >>=-eq-ok,
}
use patchwright.Prelude.Text.{Text}
use patchwright.Relay.Inbox.{
  InboxRow, RelayState, InboxError, forward_batch_size, is_pending, mark_forwarded, defer_delivery,
}
use patchwright.Relay.Inbox.Steps.{IsBounded, mark_forwarded-cases, defer_delivery-cases}
use patchwright.Relay.Forwarder.{
  ForwardedWebhook, ForwardSummary, due_rows, collect, to_webhook, due_deliveries, forward_one,
  forward_each, forward_batch, forward_pending_once, counted, summarised,
}

-- The deliveries that wait.
abbrev waiting : RelayState → ℕ
waiting state = count is_pending state.inbox

-- A round that ends well has forwarded as many deliveries, none or one, as wait no more.
abbrev Accounts : RelayState → ℕ → RelayState × Result InboxError ℕ → Type 0
Accounts state most (after, result) =
    IsBounded after × ((n : ℕ) → result ≡ ok n → (waiting after + n ≡ waiting state) × (n ≤ most))

counted-Accounts :
    (state : RelayState) (n : ℕ) (p : RelayState × Result InboxError Unit)
    → IsBounded p.0
    → (p.1 ≡ ok tt → waiting p.0 + n ≡ waiting state)
    → n ≤ 1
    → Accounts state 1 (counted n p)
counted-Accounts state n (after, ok u) h balance most =
    (h, λ m e. rw (sym (ok-injective e)) (balance refl, most))
counted-Accounts state n (after, err e) h balance most = (h, λ m e. cc)

mark_forwarded-Accounts :
    (now : ℕ) (id : Text) (state : RelayState)
    → IsBounded state
    → Accounts state 1 (counted 1 (mark_forwarded now id state))
mark_forwarded-Accounts now id state h = elim (mark_forwarded-cases now id state h) [
  | inl (done, after, fewer) ↦
      counted-Accounts state 1 (mark_forwarded now id state) after (λ _. fewer) (omega arith)
  | inr unchanged ↦ rw unchanged (h, λ n e. cc)
]

defer_delivery-Accounts :
    (now : ℕ) (id : Text) (state : RelayState)
    → IsBounded state
    → Accounts state 1 (counted 0 (defer_delivery now id state))
defer_delivery-Accounts now id state h = elim (defer_delivery-cases now id state h) [
  | inl (done, after, same) ↦
      counted-Accounts state 0 (defer_delivery now id state) after (λ _. omega (arith, same))
        (omega arith)
  | inr (e, unchanged) ↦ rw unchanged (h, λ n e. cc)
]

module _ {Envelope : Type 0} (engine : ForwardedWebhook Envelope → Bool) (clock : Text → ℕ) where
  forward_one-Accounts :
      (delivery : ForwardedWebhook Envelope) (state : RelayState)
      → IsBounded state
      → Accounts state 1 (forward_one engine clock delivery state)
  unfolding forward_one
  forward_one-Accounts delivery state h = elim (Bool-cases (engine delivery)) [
    | inl taken ↦ rw taken (mark_forwarded-Accounts _ _ state h)
    | inr refused ↦ rw refused (defer_delivery-Accounts _ _ state h)
  ]

  -- What the loop leaves, with `forwarded` deliveries forwarded before.
  abbrev Balances :
      List (ForwardedWebhook Envelope) → ℕ → RelayState → RelayState × Result InboxError ℕ → Type 0
  Balances deliveries forwarded state (after, result) =
      IsBounded after
      × ((n : ℕ)
          → result ≡ ok n
          → (waiting after + n ≡ waiting state + forwarded) × (n ≤ forwarded + length deliveries))

  -- The rest of the loop after one round, given what the rest does.
  after_one :
      (delivery : ForwardedWebhook Envelope) (rest : List (ForwardedWebhook Envelope))
      (forwarded : ℕ) (state mid : RelayState) (result : Result InboxError ℕ)
      → ((k : ℕ)
          → IsBounded mid
          → Balances rest (forwarded + k) mid (forward_each engine clock rest (forwarded + k) mid))
      → Accounts state 1 (mid, result)
      → Balances (delivery ∷ rest) forwarded state (elim result [
        | ok n ↦ forward_each engine clock rest (forwarded + n) mid
        | err e ↦ (mid, err e)
      ])
  after_one delivery rest forwarded state mid (err e) onward (bounded, _) = (bounded, λ n e. cc)
  after_one delivery rest forwarded state mid (ok k) onward (bounded, accounts) =
      let (balance, most) = accounts k refl in
      let (after, total) = onward k bounded in
      (after, λ n e. (omega (arith, (total n e).0, balance), omega (arith, (total n e).1, most)))

  forward_each-Balances :
      (deliveries : List (ForwardedWebhook Envelope)) (forwarded : ℕ) (state : RelayState)
      → IsBounded state
      → Balances deliveries forwarded state (forward_each engine clock deliveries forwarded state)
  unfolding forward_each
  forward_each-Balances [] forwarded state h =
      (h, λ n e. rw (sym (ok-injective e)) (refl, omega arith))
  forward_each-Balances (delivery ∷ rest) forwarded state h =
      let done = forward_one engine clock delivery state in
      after_one delivery rest forwarded state done.0 done.1
        (λ k bounded. forward_each-Balances rest (forwarded + k) done.0 bounded)
        (forward_one-Accounts delivery state h)

  -- What a batch is said to do below.
  abbrev IsBalanced : RelayState → RelayState × Result InboxError ForwardSummary → Type 0
  IsBalanced state (after, result) =
      IsBounded after
      × ((summary : ForwardSummary)
          → result ≡ ok summary
          → (waiting after + summary.forwarded ≡ waiting state)
            × (summary.forwarded ≤ summary.attempted)
            × (summary.attempted ≤ 32))

  summarised-IsBalanced :
      (deliveries : List (ForwardedWebhook Envelope)) (state : RelayState)
      (p : RelayState × Result InboxError ℕ)
      → length deliveries ≤ 32
      → Balances deliveries 0 state p
      → IsBalanced state (summarised (length deliveries) p)
  summarised-IsBalanced deliveries state (after, err e) short (h, _) = (h, λ n e. cc)
  summarised-IsBalanced deliveries state (after, ok n) short (h, total) =
      let (balance, most) = total n refl in
      (
        h,
        λ summary e. rw (sym (ok-injective e)) (omega (arith, balance), omega (arith, most), short),
      )

  forward_batch-IsBalanced :
      (due : Result InboxError (List (ForwardedWebhook Envelope))) (state : RelayState)
      → ((deliveries : List (ForwardedWebhook Envelope))
          → due ≡ ok deliveries
          → length deliveries ≤ 32)
      → IsBounded state
      → IsBalanced state (forward_batch engine clock due state)
  forward_batch-IsBalanced (err e) state short h = (h, λ n e. cc)
  forward_batch-IsBalanced (ok deliveries) state short h =
      summarised-IsBalanced deliveries state (forward_each engine clock deliveries 0 state)
        (short deliveries refl) (forward_each-Balances deliveries 0 state h)

collect-length :
    {Envelope : Type 0} (decode : List ℕ → Option Envelope) (rows : List InboxRow)
    (deliveries : List (ForwardedWebhook Envelope))
    → collect decode rows ≡ ok deliveries
    → length deliveries ≡ length rows
collect-length decode [] deliveries e = ap length (sym (ok-injective e))
collect-length decode (row ∷ rows) deliveries e =
    let (webhook, _, e₁) = >>=-eq-ok (to_webhook row (decode row.payload)) _ e in
    let (rest, e₂, e₃) = >>=-eq-ok (collect decode rows) _ e₁ in
    ap length (sym (ok-injective e₃)) ∙ ap suc (collect-length decode rows rest e₂)

take-short : {A : Type 0} (n : ℕ) (xs : List A) → length (take n xs) ≤ n
take-short zero xs = omega arith
take-short (suc n) [] = omega arith
take-short (suc n) (x ∷ xs) = omega (arith, take-short n xs)

due_rows-length :
    (julianday : ℕ → ℕ) (now : ℕ) (rows : List InboxRow) → length (due_rows julianday now rows) ≤ 32
due_rows-length julianday now rows = take-short forward_batch_size _

-- A batch keeps a bounded inbox bounded. When it ends without an error, it has attempted at most
-- thirty-two deliveries and forwarded no more than it attempted, and exactly as many deliveries as
-- it forwarded wait no more: none is lost.
pub forward_pending_once-balance :
    {Envelope : Type 0} (decode : List ℕ → Option Envelope) (julianday : ℕ → ℕ)
    (engine : ForwardedWebhook Envelope → Bool) (clock : Text → ℕ) (now : ℕ) (state : RelayState)
    → IsBounded state
    → let r = forward_pending_once decode julianday engine clock now state in
      IsBounded r.0
      × ((summary : ForwardSummary)
          → r.1 ≡ ok summary
          → (count is_pending r.0.inbox + summary.forwarded ≡ count is_pending state.inbox)
            × (summary.forwarded ≤ summary.attempted)
            × (summary.attempted ≤ 32))
unfolding forward_pending_once due_deliveries
forward_pending_once-balance decode julianday engine clock now state h =
    forward_batch-IsBalanced engine clock (due_deliveries decode julianday now state) state
      (λ deliveries e. omega (
        arith,
        collect-length decode (due_rows julianday now state.inbox) deliveries e,
        due_rows-length julianday now state.inbox,
      ))
      h
