-- ===== src/Transactions/Flows/Single.antt =====
-- The flows of one transaction of sdk/src/tx/flows.ts, with a payment or an event.
use set.Prelude.{ℕ, ◌+◌, ◌*◌, Option, none, some, List, length}
use set.Prelude.Text.{Text, codes}
use set.Transactions.Builder.{TxBuilderOptions}
use set.Transactions.Flows.{
  StepData, batch_sponsor_merchants, commit_batch, submit_encrypted_tx, force_transaction,
  FlowResult, EventArgs, Contracts, World, nothing_yet, event_of_result, last_stage,
}

-- `event.args?.name`, or `undefined` if there is no event.
abbrev pub text_arg : Text → Option EventArgs → Option Text
text_arg name none = none
text_arg name (some args) = args.text name

abbrev pub number_arg : Text → Option EventArgs → Option ℕ
number_arg name none = none
number_arg name (some args) = args.number name

module _ {S Log : Type 0} (c : Contracts S Log) (options : TxBuilderOptions S) where
  unfoldable pub execute_batch_sponsor_flow : List Text → List ℕ → World S → FlowResult × World S
  unfolding last_stage
  execute_batch_sponsor_flow merchants tier_ids =
      last_stage c options (codes "batchSponsor") (codes "Batch sponsor failed")
        (batch_sponsor_merchants merchants tier_ids) 0
        (λ r. some (StepData.merchant_count (length merchants))) nothing_yet

  unfoldable pub execute_commit_batch_flow :
      Text → Text → Text → Text → ℕ → World S → FlowResult × World S
  unfolding last_stage
  execute_commit_batch_flow tenant_id store_id batch_id stark_root tx_count =
      last_stage c options (codes "commitBatch") (codes "Batch commit failed")
        (commit_batch tenant_id store_id batch_id stark_root tx_count) 0
        (λ r. some (StepData.batch batch_id tx_count)) nothing_yet

  unfoldable pub execute_encrypted_tx_flow : Text → ℕ → ℕ → ℕ → ℕ → World S → FlowResult × World S
  unfolding last_stage event_of_result
  execute_encrypted_tx_flow payload epoch gas_limit max_fee_per_gas value_deposit =
      last_stage c options (codes "submitEncryptedTx") (codes "Submit failed")
        (submit_encrypted_tx payload epoch gas_limit max_fee_per_gas)
        (gas_limit * max_fee_per_gas + value_deposit)
        (λ r. some (
          StepData.encrypted_id
            (text_arg (codes "txId") (event_of_result c options (codes "EncryptedTxSubmitted") r))))
        nothing_yet

  unfoldable pub execute_forced_inclusion_flow :
      Text → Text → ℕ → ℕ → World S → FlowResult × World S
  unfolding last_stage event_of_result
  execute_forced_inclusion_flow target call_data gas_limit bond =
      last_stage c options (codes "forceTransaction") (codes "Force transaction failed")
        (force_transaction target call_data gas_limit) bond
        (λ r.
          let event = event_of_result c options (codes "TransactionForced") r in
          some
            (StepData.forced (text_arg (codes "txId") event) (number_arg (codes "deadline") event)))
        nothing_yet
