-- ===== src/Polling.antt =====
-- The polling loops of the SDK: `while (Date.now() - startTime < timeout) { …; await sleep(interval) }`,
-- and what is thrown after it. They are `pollUntil` (sdk/src/utils/retry.ts), `watchTransaction`
-- (sdk/src/tx/builder.ts) and `waitForStatus` (sdk/src/encryption.ts). The loop runs on fuel, and
-- `none` means that the fuel ran out. A round lasts at least the interval, so a fuel of the timeout
-- divided by the interval, and two, is enough.
pub mod Rounds
pub mod Until
pub mod Watch
use set.Prelude.{
  ℕ, zero, suc, ◌+◌, ◌-◌, ◌/◌, Bool, true, false, Option, none, some, ◌++◌, ltb, leb, ◌==◌,
  if◌then◌else◌,
}
use set.Prelude.Text.{Text, codes, text_eq}
use set.Errors.{SdkErrorCode, Thrown, sdk, error, value, sdk_error, message_of}
use set.Effects.{Result, ok, err, Action, pure, ◌>>=◌}
use set.Retry.{Runtime}
use set.Transactions.Builder.{TransactionReceipt}

module _ {S A : Type 0} (rt : Runtime S) (body : Action S (Option A)) (interval timeout : ℕ)
    (late : Thrown) where
  -- The rounds of the loop. A round ends it with a result, or with what it throws, or with `none`
  -- goes on.
  unfoldable pub poll_from : ℕ → ℕ → S → Option (Result A × S)
  poll_from zero start s = none
  poll_from (suc rounds) start s =
      let (r, s') = body s in
      let again = poll_from rounds start (rt.sleep interval s') in
      if ltb (rt.clock s) (start + timeout)
      then elim r [
        | err e ↦ some (err e, s')
        | ok found ↦ elim found [ some a ↦ some (ok a, s') | none ↦ again ]
      ]
      else some (err late, s)

  abbrev pub enough : ℕ
  enough = suc (timeout / interval + 1)

  unfoldable pub poll : S → Option (Result A × S)
  unfolding poll_from
  poll s = poll_from enough (rt.clock s) s

abbrev pub timeout_error : Text → Thrown
timeout_error operation =
    sdk (sdk_error SdkErrorCode.timeout (codes "Operation timed out: " ++ operation))

abbrev pub found_if : Bool → Option (Unit {0})
found_if true = some tt
found_if false = none

module _ {S : Type 0} (rt : Runtime S) where
  unfoldable pub poll_until : Action S Bool → ℕ → ℕ → Text → S → Option (Result (Unit {0}) × S)
  unfolding poll
  poll_until fn interval_ms timeout_ms operation =
      poll rt (do result ← fn; pure (found_if result)) interval_ms timeout_ms
        (timeout_error (operation ++ codes " not met"))

-- The two calls of the provider that `watchTransaction` makes.
pub record Provider (S : Type 0) : Type 0 where
  pub get_transaction_receipt : Text → Action S (Option TransactionReceipt)
  pub get_block_number : Action S ℕ

abbrev pub reverted_error : Thrown
reverted_error = error (codes "Transaction reverted")

-- `(error as Error).message === 'Transaction reverted'`; a thrown value that is no `Error` has no message.
abbrev pub says_reverted : Thrown → Bool
says_reverted (value m) = false
says_reverted e = text_eq (message_of e) (codes "Transaction reverted")

-- The `catch` of a round: other errors are ignored.
abbrev pub or_ignored : {S A : Type 0} → Thrown → S → Result (Option A) × S
or_ignored e s = if says_reverted e then (err e, s) else (ok none, s)

module _ {S : Type 0} (provider : Provider S) where
  -- A round of `watchTransaction`: the receipt, if it has enough confirmations.
  unfoldable pub watch_round : Text → ℕ → Action S (Option TransactionReceipt)
  watch_round tx_hash confirmations s =
      let (r, u) = provider.get_transaction_receipt tx_hash s in
      elim r [
        | err e ↦ or_ignored e u
        | ok found ↦ elim found [
          | none ↦ (ok none, u)
          | some receipt ↦
              if receipt.status == 0
              then or_ignored reverted_error u
              else let (b, v) = provider.get_block_number u in
                elim b [
                  | err e ↦ or_ignored e v
                  | ok current_block ↦
                      if leb (confirmations + receipt.block_number) (current_block + 1)
                      then (ok (some receipt), v)
                      else (ok none, v)
                ]
        ]
      ]

module _ {S : Type 0} (rt : Runtime S) (provider : Provider S) where
  unfoldable pub watch_transaction : Text → ℕ → ℕ → S → Option (Result TransactionReceipt × S)
  unfolding poll watch_round
  watch_transaction tx_hash confirmations timeout_ms =
      poll rt (watch_round provider tx_hash confirmations) 2000 timeout_ms
        (error (codes "Transaction confirmation timeout: " ++ tx_hash))
