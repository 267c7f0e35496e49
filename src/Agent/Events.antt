-- ===== src/Agent/Events.antt =====
-- sdk/src/utils/events.ts on the receipts of the client: finding an event and one of its arguments.
use set.Prelude.{ℕ, true, false, Option, none, some, List, [], ◌∷◌, ◌++◌, if◌then◌else◌}
use set.Prelude.Text.{Text, codes, text_eq}
use set.Errors.{SdkErrorCode, sdk, sdk_error}
use set.Effects.{Result, ok, err}
use set.Agent.Chain.{Event, EventArgs, Log, Receipt, Contracts, in_abi}

abbrev event_name : Event → Text
event_name Event.gateway_deposit = codes "GatewayDeposit"
event_name Event.gateway_gas_tank_top_up = codes "GatewayGasTankTopUp"
event_name Event.gateway_escrow_funded = codes "GatewayEscrowFunded"
event_name Event.bridge_out = codes "BridgeOut"
event_name Event.redeem_requested = codes "RedeemRequested"

module _ {E : Type 0} (c : Contracts E) where
  -- The loop of `findEvent`: the first log of the event's topic that can be parsed.
  find_log : Event → List Log → Option EventArgs
  find_log event [] = none
  find_log event (log ∷ logs) = elim (text_eq log.topic (c.topic_hash event)) [
    | false ↦ find_log event logs
    | true ↦ elim (c.parse_log event log) [ none ↦ find_log event logs | some args ↦ some args ]
  ]

  unfoldable pub find_event : Receipt → Event → Option EventArgs
  unfolding find_log
  find_event receipt event = if in_abi event then find_log event receipt.logs else none

  -- `extractEventArg` with a getter for the argument: its result is `null` where there is none.
  unfoldable pub extract_event_arg :
      {A : Type 0} → Receipt → Event → (EventArgs → Option A) → Option A
  unfolding find_event
  extract_event_arg receipt event get = elim (find_event receipt event) [
    | none ↦ none
    | some args ↦ get args
  ]

  unfoldable pub extract_event_arg_or_throw :
      {A : Type 0} → Receipt → Event → Text → (EventArgs → Option A) → Result A
  unfolding extract_event_arg
  extract_event_arg_or_throw receipt event arg get = elim (extract_event_arg receipt event get) [
    | some a ↦ ok a
    | none ↦ err (
        sdk (
          sdk_error SdkErrorCode.event_parse_error
            (codes "Failed to parse event: " ++ (event_name event ++ (codes "." ++ arg)))))
  ]

  unfoldable pub extract_number : Receipt → Event → Text → Result ℕ
  unfolding extract_event_arg_or_throw
  extract_number receipt event arg =
      extract_event_arg_or_throw receipt event arg (λ args. args.number arg)

  unfoldable pub extract_text : Receipt → Event → Text → Result Text
  unfolding extract_event_arg_or_throw
  extract_text receipt event arg =
      extract_event_arg_or_throw receipt event arg (λ args. args.text arg)
