-- ===== src/Transactions/Flows.antt =====
-- sdk/src/tx/flows.ts: sequences of transactions, each made by `TransactionBuilder.execute`. The calls that
-- the flows make of a builder are the data `Method`; what the node does with each is the parameter
-- `Contracts`, with the receipts' logs and their parsing. Amounts are natural numbers: ethers refuses to
-- encode others.
pub mod Single
pub mod Trace
use set.Prelude.{
  ℕ, ◌+◌, ◌*◌, Bool, true, false, Option, none, some, List, [], ◌∷◌, ◌++◌, ltb, if◌then◌else◌,
}
use set.Prelude.Text.{Text, codes, text_eq}
use set.Errors.{Thrown}
use set.Effects.{Result, ok, err, Action}
use set.Transactions.Builder.{
  TxStatus, TransactionReceipt, TxResult, TxBuilderOptions, Call, Wallet, or_zero, execute,
}
use set.Transactions.ContractCalls.{known_message}

-- The contract's method with its arguments. `approve` has the token, the spender and the amount; a
-- `deposit` the token's address, the amount and the recipient.
pub data Method : Type 0 where
  approve : Text → Text → ℕ → Method
  deposit : Text → ℕ → Text → Method
  wrap unwrap request_redemption : ℕ → Method
  batch_sponsor_merchants : List Text → List ℕ → Method
  commit_batch : Text → Text → Text → Text → ℕ → Method
  submit_encrypted_tx : Text → ℕ → ℕ → ℕ → Method
  force_transaction : Text → Text → ℕ → Method

pub data StepStatus : Type 0 where
  success failed skipped : StepStatus

-- The field `data` of a step.
pub data StepData : Type 0 where
  sufficient_allowance : StepData
  request_id : Option ℕ → StepData
  merchant_count : ℕ → StepData
  batch : Text → ℕ → StepData
  encrypted_id : Option Text → StepData
  forced : Option Text → Option ℕ → StepData

pub record FlowStepResult : Type 0 where
  pub step : Text
  pub status : StepStatus
  pub tx_hash : Option Text
  pub error : Option Text
  pub step_data : Option StepData

-- The fields `requestId`, `txId` and `deadline` of a result are those of its last step's data.
pub record FlowResult : Type 0 where
  pub success : Bool
  pub steps : List FlowStepResult
  pub total_gas_used : ℕ
  pub total_cost : ℕ
  pub error : Option Text

-- The named arguments of a parsed event: numbers, and texts.
pub record EventArgs : Type 0 where
  pub number : Text → Option ℕ
  pub text : Text → Option Text

-- A log is parsed to the event's name and its arguments; `none` stands for a log that makes
-- `parseLog` throw or return `null`.
pub record Contracts (S Log : Type 0) : Type 0 where
  pub call : Method → Call S
  pub get_address : Text → Action S Text
  pub allowance : Text → Text → Action S ℕ
  pub wallet_address : Text
  pub logs : TransactionReceipt → List Log
  pub parse_log : Log → Option (Text × EventArgs)

-- What was given to `execute`, with the value that is sent along, the last first.
pub record World (S : Type 0) : Type 0 where
  pub wallet : Wallet S
  pub executed : List (Method × ℕ)

-- What a flow has gathered.
pub record Progress : Type 0 where
  pub steps : List FlowStepResult
  pub total_gas_used : ℕ
  pub total_cost : ℕ

abbrev pub nothing_yet : Progress
nothing_yet = record { steps = []; total_gas_used = 0; total_cost = 0 }

abbrev pub is_confirmed : TxStatus → Bool
is_confirmed TxStatus.confirmed = true
is_confirmed _ = false

abbrev pub gas_used : Option TransactionReceipt → ℕ
gas_used none = 0
gas_used (some r) = r.gas_used

-- `{ success: false, …, error }`
abbrev pub stopped : Progress → Text → FlowResult
stopped p e = record {
  success = false;
  steps = p.steps;
  total_gas_used = p.total_gas_used;
  total_cost = p.total_cost;
  error = some e;
}

abbrev pub finished : Progress → FlowResult
finished p = record {
  success = true;
  steps = p.steps;
  total_gas_used = p.total_gas_used;
  total_cost = p.total_cost;
  error = none;
}

abbrev pub add_step : FlowStepResult → Progress → Progress
add_step s p = record p { steps = p.steps ++ (s ∷ []) }

-- The step of a transaction that is confirmed, and its gas and cost.
abbrev pub add_success : Text → TxResult → Option StepData → Progress → Progress
add_success name r d p = record {
  steps =
      p.steps
      ++ (record { step = name; status = success; tx_hash = r.hash; error = none; step_data = d }
          ∷ []);
  total_gas_used = p.total_gas_used + gas_used r.receipt;
  total_cost = p.total_cost + or_zero r.total_cost;
}

abbrev pub add_failure : Text → TxResult → Progress → Progress
add_failure name r p =
    add_step
      (record { step = name; status = failed; tx_hash = none; error = r.error; step_data = none }) p

abbrev pub skipped_approval : FlowStepResult
skipped_approval = record {
  step = codes "approve";
  status = skipped;
  tx_hash = none;
  error = none;
  step_data = some sufficient_allowance;
}

-- The first half of a flow: it ends the flow, or what follows goes on.
pub data Stage : Type 0 where
  stop : FlowResult → Stage
  go_on : Progress → Stage

module _ {S Log : Type 0} (c : Contracts S Log) (options : TxBuilderOptions S) where
  unfoldable pub execute_method : Method → ℕ → World S → TxResult × World S
  execute_method method value w =
      let (r, wallet) = execute (c.call method) options value w.wallet in
      (r, record { wallet = wallet; executed = (method, value) ∷ w.executed })

  abbrev pub ask : {A : Type 0} → Action S A → World S → Result A × World S
  ask m w = let (r, s) = m w.wallet.env in (r, record w { wallet = record w.wallet { env = s } })

  -- The loop of `findEvent`: the first log that parses to the event.
  unfoldable pub find_flow_event : Text → List Log → Option EventArgs
  find_flow_event name [] = none
  find_flow_event name (log ∷ logs) = elim (c.parse_log log) [
    | none ↦ find_flow_event name logs
    | some (found, args) ↦ if text_eq found name then some args else find_flow_event name logs
  ]

  -- `if (result.receipt) { const event = findEvent(…) … }`
  unfoldable pub event_of_result : Text → TxResult → Option EventArgs
  unfolding find_flow_event
  event_of_result name r = elim r.receipt [
    | none ↦ none
    | some receipt ↦ find_flow_event name (c.logs receipt)
  ]

  -- Step 1: the address of the spender, the allowance, and the approval if it is too small.
  unfoldable pub approve_stage : Text → Text → ℕ → World S → Stage × World S
  unfolding execute_method
  approve_stage token spender amount w =
      let (a, w1) = ask (c.get_address spender) w in
      elim a [
        | err e ↦ (stop (stopped nothing_yet (known_message e)), w1)
        | ok address ↦
            let (b, w2) = ask (c.allowance token address) w1 in
            elim b [
              | err e ↦ (stop (stopped nothing_yet (known_message e)), w2)
              | ok allowance ↦
                  let (r, w3) = execute_method (approve token address amount) 0 w2 in
                  if ltb allowance amount
                  then if is_confirmed r.status
                    then (go_on (add_success (codes "approve") r none nothing_yet), w3)
                    else (
                      stop (
                          stopped (add_failure (codes "approve") r nothing_yet)
                            (codes "Approval failed")),
                      w3,
                    )
                  else (go_on (add_step skipped_approval nothing_yet), w2)
            ]
      ]

  -- The last step of a flow.
  unfoldable pub last_stage :
      Text
      → Text
      → Method
      → ℕ
      → (TxResult → Option StepData)
      → Progress
      → World S
      → FlowResult × World S
  unfolding execute_method
  last_stage name failure method value data_of p w =
      let (r, w') = execute_method method value w in
      if is_confirmed r.status
      then (finished (add_success name r (data_of r) p), w')
      else (stopped (add_failure name r p) failure, w')

  unfoldable pub execute_deposit_flow : Text → Text → ℕ → World S → FlowResult × World S
  unfolding approve_stage last_stage
  execute_deposit_flow treasury_vault collateral_token amount w =
      let (stage, w1) = approve_stage collateral_token treasury_vault amount w in
      elim stage [
        | stop r ↦ (r, w1)
        | go_on p ↦
            let (a, w2) = ask (c.get_address collateral_token) w1 in
            elim a [
              | err e ↦ (stopped p (known_message e), w2)
              | ok token ↦
                  last_stage (codes "deposit") (codes "Deposit failed")
                    (deposit token amount c.wallet_address) 0 (λ r. none) p w2
            ]
      ]

  unfoldable pub execute_wrap_flow : Text → Text → ℕ → World S → FlowResult × World S
  unfolding approve_stage last_stage
  execute_wrap_flow wss_usd ss_usd amount w =
      let (stage, w1) = approve_stage ss_usd wss_usd amount w in
      elim stage [
        | stop r ↦ (r, w1)
        | go_on p ↦ last_stage (codes "wrap") (codes "Wrap failed") (wrap amount) 0 (λ r. none) p w1
      ]

  unfoldable pub execute_unwrap_flow : ℕ → World S → FlowResult × World S
  unfolding last_stage
  execute_unwrap_flow shares =
      last_stage (codes "unwrap") (codes "Unwrap failed") (unwrap shares) 0 (λ r. none) nothing_yet

  abbrev pub requested_id : TxResult → Option ℕ
  requested_id r = elim (event_of_result (codes "RedemptionRequested") r) [
    | none ↦ none
    | some args ↦ args.number (codes "requestId")
  ]

  unfoldable pub execute_redemption_request_flow : Text → Text → ℕ → World S → FlowResult × World S
  unfolding approve_stage last_stage event_of_result
  execute_redemption_request_flow treasury_vault ss_usd amount w =
      let (stage, w1) = approve_stage ss_usd treasury_vault amount w in
      elim stage [
        | stop r ↦ (r, w1)
        | go_on p ↦
            last_stage (codes "requestRedemption") (codes "Redemption request failed")
              (request_redemption amount) 0 (λ r. some (request_id (requested_id r))) p w1
      ]
