-- ===== src/Stablecoin/Chain.antt =====
-- What the client works on: the contracts behind ethers, as the parameter `Contracts`, and the world,
-- which is their state and the list of the transactions that the client has asked to send.
use set.Prelude.{ℕ, Bool, true, false, Option, none, some, List, [], ◌∷◌, ◌==◌, if◌then◌else◌}
use set.Prelude.Int.{ℤ, pos, ltb_ℤ}
use set.Prelude.Text.{Text, text_eq}
use set.Errors.{SdkErrorCode, Thrown, sdk, sdk_error, wrap_error}
use set.Effects.{Result, ok, err, Action, pure, when, catch, lift, ◌>>=◌, ◌>>◌}
use set.Retry.{Runtime, with_retry, default_retry_options}
use set.Validation.{Ethers}
use set.Gas.{Multiplier, FeeData}

pub data TokenCategory : Type 0 where
  native bridged stablecoin verified unknown : TokenCategory

pub data TrustLevel : Type 0 where
  trusted verified unverified : TrustLevel

pub data RedemptionStatus : Type 0 where
  pending processing completed cancelled : RedemptionStatus

pub record TokenInfo : Type 0 where
  pub token_address : Text
  pub name : Text
  pub symbol : Text
  pub decimals : ℕ
  pub logo_uri : Text
  pub category : TokenCategory
  pub trust_level : TrustLevel
  pub is_collateral : Bool
  pub added_at : ℕ
  pub updated_at : ℕ

pub record NavReport : Type 0 where
  pub total_assets : ℕ
  pub total_shares : ℕ
  pub nav_per_share : ℕ
  pub timestamp : ℕ
  pub report_date : ℕ
  pub proof_hash : Text
  pub attestor : Text

pub record RedemptionRequest : Type 0 where
  pub id : ℕ
  pub requester : Text
  pub ss_usd_amount : ℕ
  pub collateral_token : Text
  pub requested_at : ℕ
  pub processed_at : ℕ
  pub status : RedemptionStatus

pub record StablecoinAddresses : Type 0 where
  pub token_registry : Text
  pub nav_oracle : Text
  pub ss_usd : Text
  pub wss_usd : Text
  pub treasury : Text

-- The calls that change the state of a contract. The first argument of `approve` is the token, the
-- last one of a deposit or a redemption request is the gas limit.
pub data Tx : Type 0 where
  approve : Text → Text → ℤ → Tx
  deposit : Text → ℤ → Text → ℕ → Tx
  request_redemption : ℤ → Text → ℕ → Tx
  cancel_redemption : ℕ → Tx
  wrap unwrap : ℤ → Tx

-- The events that the client looks for. The ABIs of sdk/src/stablecoin/abis.ts have all of them.
pub data Event : Type 0 where
  deposited redemption_requested wrapped unwrapped : Event

pub record Log : Type 0 where
  pub topic : Text
  pub body : Text

pub record Receipt : Type 0 where
  pub hash : Text
  pub status : ℕ
  pub logs : List Log

-- Each view is one call to the node; it may fail, and the state may have moved when it answers. A log is
-- parsed to the argument of the name, if there is one.
pub record Contracts (E : Type 0) : Type 0 where
  pub runtime : Runtime E
  pub ethers : Ethers
  pub addresses : StablecoinAddresses
  pub signer_address : Text
  pub block_confirmations : ℕ
  pub gas_buffer : Multiplier
  pub topic_hash : Event → Text
  pub parse_log : Event → Log → Option (Text → Option ℕ)
  -- treasury
  pub deposits_paused : Action E Bool
  pub redemptions_paused : Action E Bool
  pub redemption_delay : Action E ℕ
  pub get_redemption_request : ℕ → Action E RedemptionRequest
  pub get_user_redemptions : Text → Action E (List ℕ)
  pub get_total_collateral_value : Action E ℕ
  pub get_collateral_ratio : Action E ℕ
  -- token registry
  pub is_approved_collateral : Text → Action E Bool
  pub get_collateral_tokens : Action E (List Text)
  pub get_token_info : Text → Action E TokenInfo
  -- tokens: the first argument is the token
  pub balance_of : Text → Text → Action E ℕ
  pub allowance : Text → Text → Text → Action E ℕ
  pub shares_of : Text → Action E ℕ
  pub total_supply : Action E ℕ
  pub total_shares : Action E ℕ
  pub get_nav_per_share : Action E ℕ
  pub get_ssdc_value : Text → Action E ℕ
  pub get_share_price : Action E ℕ
  pub convert_to_shares : ℤ → Action E ℕ
  pub convert_to_assets : ℤ → Action E ℕ
  -- NAV oracle
  pub is_nav_fresh : Action E Bool
  pub get_current_nav : Action E NavReport
  pub get_nav_history : ℕ → Action E (List NavReport)
  -- gas
  pub estimate_deposit : Text → ℤ → Text → Action E ℕ
  pub estimate_request_redemption : ℤ → Text → Action E ℕ
  pub get_fee_data : Action E FeeData
  -- sending, and `tx.wait`, by the transaction's hash; a receipt may be `null`
  pub send : Tx → Action E Text
  pub wait : Text → ℕ → Action E (Option Receipt)

-- `sent` has the last transaction first. A call that the node refuses is listed too.
pub record World (E : Type 0) : Type 0 where
  pub env : E
  pub sent : List Tx

-- `new TransactionFailedError(reason, tx.hash)`
abbrev pub transaction_failed : Text → Thrown
transaction_failed reason = sdk (sdk_error SdkErrorCode.transaction_failed reason)

-- `throw wrapError(error, context)` around the body of a method.
abbrev pub wrapping : {S A : Type 0} → Text → Action S A → Action S A
wrapping context m = catch m (λ e. sdk (wrap_error e (some context)))

-- `!receipt || receipt.status !== 1`
abbrev pub receipt_or_fail : Text → Option Receipt → Result Receipt
receipt_or_fail reason none = err (transaction_failed reason)
receipt_or_fail reason (some receipt) =
    if receipt.status == 1 then ok receipt else err (transaction_failed reason)

module _ {E : Type 0} where
  -- An action of the environment, which sends nothing.
  abbrev pub on_env : {A : Type 0} → Action E A → Action (World E) A
  on_env m w = let (r, e) = m w.env in (r, record w { env = e })

  module _ (c : Contracts E) where
    -- `withRetry(() => …)` around one view.
    abbrev pub read : {A : Type 0} → Action E A → Action (World E) A
    read m = on_env (with_retry c.runtime m default_retry_options)

    abbrev pub send_tx : Tx → Action (World E) Text
    send_tx tx w = let (r, e) = c.send tx w.env in (r, record { env = e; sent = tx ∷ w.sent })

    abbrev pub send_and_wait : Tx → Action (World E) (Option Receipt)
    send_and_wait tx = do hash ← send_tx tx; on_env (c.wait hash c.block_confirmations)

    -- Sending, and the test of the receipt after it.
    unfoldable pub transact : Tx → Text → Action (World E) Receipt
    transact tx reason = do receipt ← send_and_wait tx; lift (receipt_or_fail reason receipt)

    -- The approval before a payment: of the amount, if the allowance is too small. Its receipt is not
    -- looked at.
    unfoldable pub approve_if_needed : Text → Text → ℤ → Action (World E) (Unit {0})
    approve_if_needed token spender amount = do
      allowed ← read (c.allowance token c.signer_address spender)
      when (ltb_ℤ (pos allowed) amount) (do send_and_wait (approve token spender amount); pure tt)

    -- The loop of `findEvent`, and the argument of `extractEventArg`: the first log of the event's
    -- topic that can be parsed has it, or there is none.
    find_argument : Event → Text → List Log → Option ℕ
    find_argument event arg [] = none
    find_argument event arg (log ∷ logs) = elim (text_eq log.topic (c.topic_hash event)) [
      | false ↦ find_argument event arg logs
      | true ↦ elim (c.parse_log event log) [
        | none ↦ find_argument event arg logs
        | some args ↦ args arg
      ]
    ]

    unfoldable pub event_arg : Receipt → Event → Text → Option ℕ
    unfolding find_argument
    event_arg receipt event arg = find_argument event arg receipt.logs

abbrev pub or_throw : {A : Type 0} → Thrown → Option A → Result A
or_throw e none = err e
or_throw e (some a) = ok a
