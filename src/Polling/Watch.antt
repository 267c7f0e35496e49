-- ===== src/Polling/Watch.antt =====
-- `watchTransaction`: what it returns and what it throws.
use set.Prelude.{
  ℕ, ◌+◌, ◌≤◌, ◌≡◌, ◌≢◌, ◌⊎◌, true, some, none, ◌++◌, inl, inr, arith, ◌==◌, leb, Bool-cases,
}
use set.Prelude.Text.{Text, codes}
use set.Errors.{Thrown, error}
use set.Effects.{Result, ok, err, outcome_cases}
use set.Retry.{Runtime}
use set.Transactions.Builder.{TransactionReceipt}
use set.Polling.{Provider, watch_round, watch_transaction, says_reverted}
use set.Polling.Rounds.{Ticks, Ends, poll-Ends, poll-Answers}

module _ {S : Type 0} (rt : Runtime S) (provider : Provider S) (tx_hash : Text)
    (confirmations timeout_ms : ℕ) where
  abbrev pub watch_timeout : Thrown
  watch_timeout = error (codes "Transaction confirmation timeout: " ++ tx_hash)

  -- The receipt is the node's, it is not that of a revert, and the node knew of enough blocks since.
  pub record Confirmed (receipt : TransactionReceipt) (t : S) : Type 0 where
    pub asked : S
    pub answered : S
    pub current_block : ℕ
    pub found : provider.get_transaction_receipt tx_hash asked ≡ (ok (some receipt), answered)
    pub not_reverted : receipt.status ≢ 0
    pub counted : provider.get_block_number answered ≡ (ok current_block, t)
    pub enough : confirmations + receipt.block_number ≤ current_block + 1

  round-Confirmed :
      (u t : S) (receipt : TransactionReceipt)
      → watch_round provider tx_hash confirmations u ≡ (ok (some receipt), t)
      → Confirmed receipt t
  unfolding watch_round
  round-Confirmed u t receipt h =
      elim (outcome_cases (provider.get_transaction_receipt tx_hash u)) [
        | inr (e, v, p) ↦ absurd (ground arith)
        | inl (none, v, p) ↦ absurd (ground arith)
        | inl (some found, v, p) ↦ elim (Bool-cases (found.status == 0)) [
          | inl z ↦ absurd (ground arith)
          | inr z ↦ elim (outcome_cases (provider.get_block_number v)) [
            | inr (e, x, q) ↦ absurd (ground arith)
            | inl (block, x, q) ↦
                elim (Bool-cases (leb (confirmations + found.block_number) (block + 1))) [
                  | inl y ↦ record {
                    asked = u;
                    answered = v;
                    current_block = block;
                    found = ground arith;
                    not_reverted = ground arith;
                    counted = ground arith;
                    enough = ground arith;
                  }
                  | inr y ↦ absurd (ground arith)
                ]
          ]
        ]
      ]

  round_reverted :
      (u t : S) (e : Thrown)
      → watch_round provider tx_hash confirmations u ≡ (err e, t)
      → says_reverted e ≡ true
  unfolding watch_round
  round_reverted u t e h = ground arith

  -- What `watchTransaction` may end with: a confirmed receipt, an error that says that the transaction
  -- was reverted, or the timeout.
  abbrev pub Watched : Result TransactionReceipt → S → Type 0
  Watched (ok receipt) t = Confirmed receipt t
  Watched (err e) t = (e ≡ watch_timeout) ⊎ (says_reverted e ≡ true)

  -- A receipt that `watchTransaction` returns is one that the node gave for the hash, that is not of a
  -- revert, and after which the node gave a block number that makes enough confirmations; and it throws
  -- nothing but errors that say that the transaction was reverted, and the timeout.
  pub watch_transaction-Watched :
      (s t : S) (r : Result TransactionReceipt)
      → watch_transaction rt provider tx_hash confirmations timeout_ms s ≡ some (r, t)
      → Watched r t
  unfolding watch_transaction
  watch_transaction-Watched s t (ok receipt) h =
      let (u, early, p) =
        poll-Answers rt (watch_round provider tx_hash confirmations) 2000 timeout_ms watch_timeout s
          t (ok receipt) h in
      round-Confirmed u t receipt p
  watch_transaction-Watched s t (err e) h =
      elim (poll-Answers rt (watch_round provider tx_hash confirmations) 2000 timeout_ms
        watch_timeout s t (err e) h) [ inl p ↦ inl p | inr (u, p) ↦ inr (round_reverted u t e p) ]

  -- On a clock that never goes back and with a timer that waits at least as long as it is asked to,
  -- `watchTransaction` always ends, after less rounds than one for every two seconds of the timeout, and
  -- one.
  pub watch_transaction-Ends :
      (s : S)
      → Ticks rt
          (watch_round provider tx_hash confirmations)
          2000
          timeout_ms
          watch_timeout
          (rt.clock s)
      → Ends rt
          (watch_round provider tx_hash confirmations)
          2000
          timeout_ms
          watch_timeout
          (rt.clock s)
          s
          (watch_transaction rt provider tx_hash confirmations timeout_ms s)
  unfolding watch_transaction
  watch_transaction-Ends s k =
      poll-Ends rt (watch_round provider tx_hash confirmations) 2000 timeout_ms watch_timeout s k
