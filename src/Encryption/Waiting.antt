-- ===== src/Encryption/Waiting.antt =====
-- `waitForStatus` and what is built on it: what it returns, and that it never returns a transaction where
-- the node's statuses are decoded as `bigint`s.
use set.Prelude.{ℕ, ◌≡◌, refl, ◌⊎◌, inl, inr, true, false, ◌||◌, some, arith, Bool-cases}
use set.Prelude.Text.{Text}
use set.Errors.{Thrown}
use set.Effects.{Result, ok, err, outcome_cases}
use set.Polling.Rounds.{Ticks, Ends, poll-Ends, poll-Answers}
use set.Encryption.Chain.{
  EncryptedTxStatus, bigint, strictly_equal, EncryptedTransaction, Protocol, World, world_runtime,
}
use set.Encryption.Clients.{status_round, status_timeout, wait_for_status, get_transaction}

module _ {E : Type 0} (c : Protocol E) (tx_id : Text) (target : EncryptedTxStatus) where
  abbrev pub IsTerminal : EncryptedTransaction → Type 0
  IsTerminal tx =
      (strictly_equal tx.status EncryptedTxStatus.failed
        || strictly_equal tx.status EncryptedTxStatus.expired)
      ≡ true

  -- What the wait may end with: a transaction that the node gave and that has the status, the timeout, an
  -- error of the node, or an error for a transaction of a terminal status that the node gave.
  abbrev pub Waited : Result EncryptedTransaction → Type 0
  Waited (ok tx) =
      (x y : E) × (c.get_encrypted_tx tx_id x ≡ (ok tx, y))
      × (strictly_equal tx.status target ≡ true)
  Waited (err e) =
      (e ≡ status_timeout tx_id target)
      ⊎ ((x y : E) × (c.get_encrypted_tx tx_id x ≡ (err e, y)))
      ⊎ ((x y : E) × (tx : EncryptedTransaction) × (c.get_encrypted_tx tx_id x ≡ (ok tx, y))
          × IsTerminal tx)

  round_ok :
      (w u : World E) (tx : EncryptedTransaction)
      → status_round c tx_id target w ≡ (ok (some tx), u)
      → Waited (ok tx)
  unfolding status_round get_transaction
  round_ok w u tx h = elim (outcome_cases (c.get_encrypted_tx tx_id w.env)) [
    | inr (e, y, p) ↦ absurd (ground arith)
    | inl (etx, y, p) ↦ elim (Bool-cases (strictly_equal etx.status target)) [
      | inl same ↦ (w.env, y, ground arith, ground arith)
      | inr other ↦
          elim (Bool-cases (
            strictly_equal etx.status EncryptedTxStatus.failed
            || strictly_equal etx.status EncryptedTxStatus.expired)) [
              | inl ended ↦ absurd (ground arith)
              | inr open_ ↦ absurd (ground arith)
            ]
    ]
  ]

  round_err :
      (w u : World E) (e : Thrown) → status_round c tx_id target w ≡ (err e, u) → Waited (err e)
  unfolding status_round get_transaction
  round_err w u e h = elim (outcome_cases (c.get_encrypted_tx tx_id w.env)) [
    | inr (x, y, p) ↦ inr (inl (w.env, y, ground arith))
    | inl (etx, y, p) ↦ elim (Bool-cases (strictly_equal etx.status target)) [
      | inl same ↦ absurd (ground arith)
      | inr other ↦
          elim (Bool-cases (
            strictly_equal etx.status EncryptedTxStatus.failed
            || strictly_equal etx.status EncryptedTxStatus.expired)) [
              | inl ended ↦ inr (inr (w.env, y, etx, p, ended))
              | inr open_ ↦ absurd (ground arith)
            ]
    ]
  ]

  -- `waitForStatus` returns only a transaction that the node gave and whose status is strictly equal to
  -- the one waited for; and it throws only the timeout, what the node's view threw, or an error for a
  -- transaction that is failed or expired.
  pub wait_for_status-Waited :
      (timeout poll_interval : ℕ) (w u : World E) (r : Result EncryptedTransaction)
      → wait_for_status c tx_id target timeout poll_interval w ≡ some (r, u)
      → Waited r
  unfolding wait_for_status
  wait_for_status-Waited timeout poll_interval w u (ok tx) h =
      let (x, early, p) =
        poll-Answers (world_runtime c) (status_round c tx_id target) poll_interval timeout
          (status_timeout tx_id target) w u (ok tx) h in
      round_ok x u tx p
  wait_for_status-Waited timeout poll_interval w u (err e) h =
      elim (poll-Answers (world_runtime c) (status_round c tx_id target) poll_interval timeout
        (status_timeout tx_id target) w u (err e) h) [
          | inl p ↦ inl p
          | inr (x, p) ↦ round_err x u e p
        ]

  -- On a clock that ticks `waitForStatus` always ends.
  pub wait_for_status-Ends :
      (timeout poll_interval : ℕ) (w : World E)
      → Ticks
          (world_runtime c)
          (status_round c tx_id target)
          poll_interval
          timeout
          (status_timeout tx_id target)
          (c.runtime.clock w.env)
      → Ends
          (world_runtime c)
          (status_round c tx_id target)
          poll_interval
          timeout
          (status_timeout tx_id target)
          (c.runtime.clock w.env)
          w
          (wait_for_status c tx_id target timeout poll_interval w)
  unfolding wait_for_status
  wait_for_status-Ends timeout poll_interval w k =
      poll-Ends (world_runtime c) (status_round c tx_id target) poll_interval timeout
        (status_timeout tx_id target) w k

  module _
      (decoded : (x y : E) (tx : EncryptedTransaction)
        → c.get_encrypted_tx tx_id x ≡ (ok tx, y)
        → (n : ℕ) × (tx.status ≡ bigint n)) where
    never_equal :
        (x y : E) (tx : EncryptedTransaction) (s : EncryptedTxStatus)
        → c.get_encrypted_tx tx_id x ≡ (ok tx, y)
        → strictly_equal tx.status s ≡ false
    never_equal x y tx s h = let (n, p) = decoded x y tx h in ground arith

    -- If the statuses that the node gives are decoded as `bigint`s, as ethers decodes a uint8, then
    -- `waitForStatus` returns no transaction, whatever its status, and throws no error for a failed or
    -- expired one: it ends with the timeout, or with an error of the node.
    pub wait_for_status_never_returns :
        (timeout poll_interval : ℕ) (w u : World E) (r : Result EncryptedTransaction)
        → wait_for_status c tx_id target timeout poll_interval w ≡ some (r, u)
        → (e : Thrown) × (r ≡ err e)
          × ((e ≡ status_timeout tx_id target)
              ⊎ ((x y : E) × (c.get_encrypted_tx tx_id x ≡ (err e, y))))
    wait_for_status_never_returns timeout poll_interval w u (ok tx) h =
        let (x, y, p, q) = wait_for_status-Waited timeout poll_interval w u (ok tx) h in
        absurd (ground (arith, never_equal x y tx target p))
    wait_for_status_never_returns timeout poll_interval w u (err e) h =
        elim (wait_for_status-Waited timeout poll_interval w u (err e) h) [
          | inl p ↦ (e, refl, inl p)
          | inr (inl p) ↦ (e, refl, inr p)
          | inr (inr (x, y, tx, p, q)) ↦ absurd (
              ground (
                arith,
                never_equal x y tx EncryptedTxStatus.failed p,
                never_equal x y tx EncryptedTxStatus.expired p,
              ))
        ]
