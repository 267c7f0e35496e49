-- ===== src/Transactions/Flows/Trace.antt =====
-- What the flows of two transactions execute, and when they report a success.
use mathlib.Core.Path.{subst}
use set.Prelude.{
  ℕ, ◌≤◌, ◌<◌, ◌≡◌, refl, sym, ◌⊎◌, inl, inr, Bool, true, false, Option, none, some, List, ◌∷◌,
  arith, Bool-cases, ltb,
}
use set.Prelude.Text.{Text, codes}
use set.Effects.{ok, outcome_cases}
use set.Transactions.Builder.{TxResult, TxBuilderOptions}
use set.Transactions.ContractCalls.{known_message}
use set.Transactions.Flows.{
  Method, StepData, FlowResult, Contracts, World, Progress, Stage, is_confirmed, ask,
  execute_method, approve_stage, last_stage, stopped, nothing_yet, add_step, add_success,
  add_failure, skipped_approval, execute_deposit_flow, execute_wrap_flow,
  execute_redemption_request_flow, requested_id,
}

module _ {S Log : Type 0} (c : Contracts S Log) (options : TxBuilderOptions S) where
  -- An execution of the method, with no payment, ended with this status in some world on the way.
  abbrev pub Executed : Method → Bool → Type 0
  Executed method confirmed =
      (w : World S) × (is_confirmed (execute_method c options method 0 w).0.status ≡ confirmed)

  -- The allowance that the node gave for the spender of this address.
  abbrev pub Allowed : Text → Text → ℕ → Type 0
  Allowed token address allowance =
      (w v : World S) × (ask c options (c.allowance token address) w ≡ (ok allowance, v))

  -- The approval was not needed, and nothing was executed; or it was executed and confirmed.
  abbrev pub Approved : Text → ℕ → List (Method × ℕ) → List (Method × ℕ) → Type 0
  Approved token amount before after =
      (address : Text) × (allowance : ℕ) × Allowed token address allowance
      × (((amount ≤ allowance) × (after ≡ before))
          ⊎ ((allowance < amount)
              × (after ≡ (Method.approve token address amount, 0) ∷ before)
              × Executed (Method.approve token address amount) true))

  -- A flow that stops at its first stage has executed the approval at most, and that was not confirmed.
  abbrev pub Refused : Text → ℕ → List (Method × ℕ) → List (Method × ℕ) → Type 0
  Refused token amount before after =
      (after ≡ before)
      ⊎ ((address : Text) × (after ≡ (Method.approve token address amount, 0) ∷ before)
          × Executed (Method.approve token address amount) false)

  abbrev StageTrace : Text → ℕ → World S → Stage × World S → Type 0
  StageTrace token amount w (Stage.stop r, u) =
      (r.success ≡ false) × Refused token amount w.executed u.executed
  StageTrace token amount w (Stage.go_on p, u) = Approved token amount w.executed u.executed

  stage_is :
      (token : Text) (amount : ℕ) (w : World S) (x y : Stage × World S)
      → x ≡ y
      → StageTrace token amount w y
      → StageTrace token amount w x
  stage_is token amount w x y p t = subst (λ z. StageTrace token amount w z) (sym p) t

  approve_stage_trace :
      (token spender : Text) (amount : ℕ) (w : World S)
      → StageTrace token amount w (approve_stage c options token spender amount w)
  unfolding approve_stage execute_method
  approve_stage_trace token spender amount w =
      elim (outcome_cases (ask c options (c.get_address spender) w)) [
        | inr (e, u, p) ↦
            stage_is token amount w (approve_stage c options token spender amount w)
              (Stage.stop (stopped nothing_yet (known_message e)), u) (ground arith)
              (refl, inl (ground arith))
        | inl (address, u, p) ↦ elim (outcome_cases (ask c options (c.allowance token address) u)) [
          | inr (e, v, q) ↦
              stage_is token amount w (approve_stage c options token spender amount w)
                (Stage.stop (stopped nothing_yet (known_message e)), v) (ground arith)
                (refl, inl (ground arith))
          | inl (allowance, v, q) ↦ elim (Bool-cases (ltb allowance amount)) [
            | inr enough ↦
                stage_is token amount w (approve_stage c options token spender amount w)
                  (Stage.go_on (add_step skipped_approval nothing_yet), v) (ground arith)
                  (address, allowance, (u, v, q), inl (ground arith, ground arith))
            | inl low ↦
                let method = Method.approve token address amount in
                let r : TxResult = (execute_method c options method 0 v).0 in
                let z : World S = (execute_method c options method 0 v).1 in
                let sent : z.executed ≡ (method, 0) ∷ w.executed = ground arith in
                elim (Bool-cases (is_confirmed r.status)) [
                  | inl confirmed ↦
                      stage_is token amount w (approve_stage c options token spender amount w)
                        (Stage.go_on (add_success (codes "approve") r none nothing_yet), z)
                        (ground arith)
                        (address, allowance, (u, v, q), inr (ground arith, sent, (v, confirmed)))
                  | inr refused ↦
                      stage_is token amount w (approve_stage c options token spender amount w)
                        (
                          Stage.stop (
                              stopped (add_failure (codes "approve") r nothing_yet)
                                (codes "Approval failed")),
                          z,
                        )
                        (ground arith) (refl, inr (address, sent, (v, refused)))
                ]
          ]
        ]
      ]

  -- The last stage executes its method, and reports a success exactly if it is confirmed.
  abbrev pub LastTrace : Method → List (Method × ℕ) → FlowResult × World S → Type 0
  LastTrace method before x = (x.1.executed ≡ (method, 0) ∷ before) × Executed method x.0.success

  last_stage_trace :
      (name failure : Text) (method : Method) (data_of : TxResult → Option StepData) (p : Progress)
      (w : World S)
      → LastTrace method w.executed (last_stage c options name failure method 0 data_of p w)
  unfolding last_stage execute_method
  last_stage_trace name failure method data_of p w =
      elim (Bool-cases (is_confirmed (execute_method c options method 0 w).0.status)) [
        | inl confirmed ↦ (ground arith, (w, ground arith))
        | inr refused ↦ (ground arith, (w, ground arith))
      ]

  -- What a flow of two transactions may do. It reports a failure and has executed the approval at
  -- most, unconfirmed; or the approval was not needed or is confirmed, and then it reports a failure with no
  -- more executed, or it executes one method of the kind and reports a success exactly if that is
  -- confirmed.
  abbrev pub FlowTrace : Text → ℕ → (Method → Type 0) → World S → FlowResult × World S → Type 0
  FlowTrace token amount P w x =
      ((x.0.success ≡ false) × Refused token amount w.executed x.1.executed)
      ⊎ ((before : List (Method × ℕ)) × Approved token amount w.executed before
          × (((x.0.success ≡ false) × (x.1.executed ≡ before))
              ⊎ ((method : Method) × P method × LastTrace method before x)))

  flow_is :
      (token : Text) (amount : ℕ) (P : Method → Type 0) (w : World S) (x y : FlowResult × World S)
      → x ≡ y
      → FlowTrace token amount P w y
      → FlowTrace token amount P w x
  flow_is token amount P w x y p t = subst (λ z. FlowTrace token amount P w z) (sym p) t

  -- To split on how the first stage ended.
  stage_cases :
      (x : Stage × World S)
      → ((r : FlowResult) × (u : World S) × (x ≡ (Stage.stop r, u)))
        ⊎ ((p : Progress) × (u : World S) × (x ≡ (Stage.go_on p, u)))
  stage_cases (Stage.stop r, u) = inl (r, u, refl)
  stage_cases (Stage.go_on p, u) = inr (p, u, refl)

  stage_at :
      (token spender : Text) (amount : ℕ) (w : World S) (y : Stage × World S)
      → approve_stage c options token spender amount w ≡ y
      → StageTrace token amount w y
  stage_at token spender amount w y p =
      subst (λ z. StageTrace token amount w z) p (approve_stage_trace token spender amount w)

  -- `executeDepositFlow` deposits only after the approval: it was not needed, or is confirmed. It executes
  -- the approval of the amount at most once, and then a deposit of the amount for the wallet at most once,
  -- and reports a success exactly if that deposit is confirmed.
  pub execute_deposit_flow_trace :
      (treasury_vault collateral_token : Text) (amount : ℕ) (w : World S)
      → FlowTrace collateral_token amount
          (λ m. (token : Text) × (m ≡ Method.deposit token amount c.wallet_address))
          w
          (execute_deposit_flow c options treasury_vault collateral_token amount w)
  unfolding execute_deposit_flow
  execute_deposit_flow_trace treasury_vault collateral_token amount w =
      elim (stage_cases (approve_stage c options collateral_token treasury_vault amount w)) [
        | inl (r, u, p) ↦
            flow_is collateral_token amount _ w
              (execute_deposit_flow c options treasury_vault collateral_token amount w) (r, u)
              (ground arith) (inl (stage_at collateral_token treasury_vault amount w _ p))
        | inr (g, u, p) ↦
            let approved = stage_at collateral_token treasury_vault amount w (Stage.go_on g, u) p in
            elim (outcome_cases (ask c options (c.get_address collateral_token) u)) [
              | inr (e, v, q) ↦
                  flow_is collateral_token amount _ w
                    (execute_deposit_flow c options treasury_vault collateral_token amount w)
                    (stopped g (known_message e), v) (ground arith)
                    (inr (u.executed, approved, inl (refl, ground arith)))
              | inl (token, v, q) ↦
                  let done =
                    last_stage_trace (codes "deposit") (codes "Deposit failed")
                      (Method.deposit token amount c.wallet_address) (λ r. none) g v in
                  let same : v.executed ≡ u.executed = ground arith in
                  flow_is collateral_token amount _ w
                    (execute_deposit_flow c options treasury_vault collateral_token amount w)
                    (last_stage c options (codes "deposit") (codes "Deposit failed")
                      (Method.deposit token amount c.wallet_address) 0 (λ r. none) g v)
                    (ground arith)
                    (inr (
                      u.executed,
                      approved,
                      inr (
                        Method.deposit token amount c.wallet_address,
                        (token, refl),
                        (ground arith, done.1),
                      ),
                    ))
            ]
      ]

  -- `executeWrapFlow` wraps only after the approval, at most once, and reports a success exactly if that
  -- wrap is confirmed.
  pub execute_wrap_flow_trace :
      (wss_usd ss_usd : Text) (amount : ℕ) (w : World S)
      → FlowTrace ss_usd amount
          (λ m. m ≡ Method.wrap amount)
          w
          (execute_wrap_flow c options wss_usd ss_usd amount w)
  unfolding execute_wrap_flow
  execute_wrap_flow_trace wss_usd ss_usd amount w =
      elim (stage_cases (approve_stage c options ss_usd wss_usd amount w)) [
        | inl (r, u, p) ↦
            flow_is ss_usd amount _ w (execute_wrap_flow c options wss_usd ss_usd amount w) (r, u)
              (ground arith) (inl (stage_at ss_usd wss_usd amount w _ p))
        | inr (g, u, p) ↦
            let approved = stage_at ss_usd wss_usd amount w (Stage.go_on g, u) p in
            flow_is ss_usd amount _ w (execute_wrap_flow c options wss_usd ss_usd amount w)
              (last_stage c options (codes "wrap") (codes "Wrap failed") (Method.wrap amount) 0
                (λ r. none) g u)
              (ground arith)
              (inr (
                u.executed,
                approved,
                inr (
                  Method.wrap amount,
                  refl,
                  last_stage_trace (codes "wrap") (codes "Wrap failed") (Method.wrap amount)
                      (λ r. none) g u,
                ),
              ))
      ]

  -- `executeRedemptionRequestFlow` requests only after the approval, at most once, and reports a success
  -- exactly if that request is confirmed.
  pub execute_redemption_request_flow_trace :
      (treasury_vault ss_usd : Text) (amount : ℕ) (w : World S)
      → FlowTrace ss_usd amount
          (λ m. m ≡ Method.request_redemption amount)
          w
          (execute_redemption_request_flow c options treasury_vault ss_usd amount w)
  unfolding execute_redemption_request_flow
  execute_redemption_request_flow_trace treasury_vault ss_usd amount w =
      elim (stage_cases (approve_stage c options ss_usd treasury_vault amount w)) [
        | inl (r, u, p) ↦
            flow_is ss_usd amount _ w
              (execute_redemption_request_flow c options treasury_vault ss_usd amount w) (r, u)
              (ground arith) (inl (stage_at ss_usd treasury_vault amount w _ p))
        | inr (g, u, p) ↦
            let approved = stage_at ss_usd treasury_vault amount w (Stage.go_on g, u) p in
            flow_is ss_usd amount _ w
              (execute_redemption_request_flow c options treasury_vault ss_usd amount w)
              (last_stage c options (codes "requestRedemption") (codes "Redemption request failed")
                (Method.request_redemption amount) 0
                (λ r. some (StepData.request_id (requested_id c options r))) g u)
              (ground arith)
              (inr (
                u.executed,
                approved,
                inr (
                  Method.request_redemption amount,
                  refl,
                  last_stage_trace (codes "requestRedemption") (codes "Redemption request failed")
                      (Method.request_redemption amount)
                      (λ r. some (StepData.request_id (requested_id c options r))) g u,
                ),
              ))
      ]
