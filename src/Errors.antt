-- ===== src/Errors.antt =====
-- sdk/src/errors.ts and the error codes of sdk/src/stablecoin/v2/AgentClient.ts: what the SDK throws,
-- and how any thrown value becomes an `SDKError`. An error is its code and its message; the fields
-- that only describe it for a reader (details, suggestion, cause, stack) are left out.
use set.Prelude.{ℕ, ◌||◌, Option, none, some, ◌++◌, if◌then◌else◌}
use set.Prelude.Text.{Text, codes, includes, decimal}

pub data SdkErrorCode : Type 0 where
  invalid_address invalid_amount invalid_data validation_error insufficient_balance : SdkErrorCode
  insufficient_allowance insufficient_gas network_error rpc_error timeout connection_failed :
      SdkErrorCode
  transaction_failed transaction_reverted transaction_replaced transaction_cancelled : SdkErrorCode
  contract_error gas_estimation_failed event_parse_error call_exception mev_unavailable :
      SdkErrorCode
  encryption_failed decryption_timeout invalid_epoch nav_stale deposits_paused : SdkErrorCode
  redemptions_paused invalid_collateral circuit_breaker_triggered redemption_cooldown : SdkErrorCode
  agent_not_grounded agent_policy_violation agent_session_expired agent_system_paused : SdkErrorCode
  agent_cooldown agent_score_degraded agent_signature_invalid agent_escrow_failed unknown :
      SdkErrorCode

pub data AgentErrorCode : Type 0 where
  agent_grounded policy_violation session_expired system_paused escrow_not_releasable nav_stale :
      AgentErrorCode
  payment_expired insufficient_shares invalid_payment_request invalid_settlement_request :
      AgentErrorCode
  settlement_action_unavailable bridge_route_unavailable invalid_bridge_request : AgentErrorCode

-- The number in the code's text, `SDK_1001`.
abbrev pub sdk_code_number : SdkErrorCode → ℕ
sdk_code_number SdkErrorCode.invalid_address = 1001
sdk_code_number SdkErrorCode.invalid_amount = 1002
sdk_code_number SdkErrorCode.invalid_data = 1003
sdk_code_number SdkErrorCode.validation_error = 1004
sdk_code_number SdkErrorCode.insufficient_balance = 2001
sdk_code_number SdkErrorCode.insufficient_allowance = 2002
sdk_code_number SdkErrorCode.insufficient_gas = 2003
sdk_code_number SdkErrorCode.network_error = 3001
sdk_code_number SdkErrorCode.rpc_error = 3002
sdk_code_number SdkErrorCode.timeout = 3003
sdk_code_number SdkErrorCode.connection_failed = 3004
sdk_code_number SdkErrorCode.transaction_failed = 4001
sdk_code_number SdkErrorCode.transaction_reverted = 4002
sdk_code_number SdkErrorCode.transaction_replaced = 4003
sdk_code_number SdkErrorCode.transaction_cancelled = 4004
sdk_code_number SdkErrorCode.contract_error = 5001
sdk_code_number SdkErrorCode.gas_estimation_failed = 5002
sdk_code_number SdkErrorCode.event_parse_error = 5003
sdk_code_number SdkErrorCode.call_exception = 5004
sdk_code_number SdkErrorCode.mev_unavailable = 6001
sdk_code_number SdkErrorCode.encryption_failed = 6002
sdk_code_number SdkErrorCode.decryption_timeout = 6003
sdk_code_number SdkErrorCode.invalid_epoch = 6004
sdk_code_number SdkErrorCode.nav_stale = 7001
sdk_code_number SdkErrorCode.deposits_paused = 7002
sdk_code_number SdkErrorCode.redemptions_paused = 7003
sdk_code_number SdkErrorCode.invalid_collateral = 7004
sdk_code_number SdkErrorCode.circuit_breaker_triggered = 7005
sdk_code_number SdkErrorCode.redemption_cooldown = 7006
sdk_code_number SdkErrorCode.agent_not_grounded = 8001
sdk_code_number SdkErrorCode.agent_policy_violation = 8002
sdk_code_number SdkErrorCode.agent_session_expired = 8003
sdk_code_number SdkErrorCode.agent_system_paused = 8004
sdk_code_number SdkErrorCode.agent_cooldown = 8005
sdk_code_number SdkErrorCode.agent_score_degraded = 8006
sdk_code_number SdkErrorCode.agent_signature_invalid = 8007
sdk_code_number SdkErrorCode.agent_escrow_failed = 8008
sdk_code_number SdkErrorCode.unknown = 9999

abbrev pub agent_code_number : AgentErrorCode → ℕ
agent_code_number AgentErrorCode.agent_grounded = 8001
agent_code_number AgentErrorCode.policy_violation = 8002
agent_code_number AgentErrorCode.session_expired = 8003
agent_code_number AgentErrorCode.system_paused = 8004
agent_code_number AgentErrorCode.escrow_not_releasable = 8005
agent_code_number AgentErrorCode.nav_stale = 8006
agent_code_number AgentErrorCode.payment_expired = 8007
agent_code_number AgentErrorCode.insufficient_shares = 8008
agent_code_number AgentErrorCode.invalid_payment_request = 8009
agent_code_number AgentErrorCode.invalid_settlement_request = 8010
agent_code_number AgentErrorCode.settlement_action_unavailable = 8011
agent_code_number AgentErrorCode.bridge_route_unavailable = 8012
agent_code_number AgentErrorCode.invalid_bridge_request = 8013

pub record SdkError : Type 0 where
  pub code : SdkErrorCode
  pub message : Text

pub record AgentError : Type 0 where
  pub code : AgentErrorCode
  pub message : Text

-- What a `catch` can meet: an `SDKError`, an `AgentError` (which extends `Error`, not `SDKError`),
-- another `Error` with its message, or a value that is no `Error`, with its `String(...)`.
pub data Thrown : Type 0 where
  sdk : SdkError → Thrown
  agent : AgentError → Thrown
  error : Text → Thrown
  value : Text → Thrown

-- `new SDKError(code, message)`: the code stands before the message.
abbrev pub sdk_error : SdkErrorCode → Text → SdkError
sdk_error c m = record {
  code = c;
  message = codes "[SDK_" ++ (decimal (sdk_code_number c) ++ (codes "] " ++ m));
}

abbrev pub agent_error : AgentErrorCode → Text → AgentError
agent_error c m = record {
  code = c;
  message = codes "[AGENT_" ++ (decimal (agent_code_number c) ++ (codes "] " ++ m));
}

abbrev pub new_network_error : Text → SdkError
new_network_error m = sdk_error SdkErrorCode.network_error m

-- `error instanceof Error ? error.message : String(error)`
abbrev pub message_of : Thrown → Text
message_of (sdk e) = e.message
message_of (agent e) = e.message
message_of (error m) = m
message_of (value m) = m

abbrev with_context : Option Text → Text → Text
with_context none m = m
with_context (some c) m = c ++ (codes ": " ++ m)

classify : Text → Option Text → SdkError
classify m context =
    if includes m (codes "insufficient funds") || includes m (codes "INSUFFICIENT_FUNDS")
    then sdk_error SdkErrorCode.insufficient_gas (codes "Insufficient funds for gas")
    else if includes m (codes "network") || includes m (codes "NETWORK")
    then new_network_error m
    else if includes m (codes "timeout") || includes m (codes "TIMEOUT")
    then sdk_error SdkErrorCode.timeout m
    else if includes m (codes "reverted") || includes m (codes "CALL_EXCEPTION")
    then sdk_error SdkErrorCode.transaction_reverted m
    else sdk_error SdkErrorCode.unknown (with_context context m)

unfoldable pub wrap_error : Thrown → Option Text → SdkError
unfolding classify
wrap_error (sdk e) context = e
wrap_error (agent e) context = classify e.message context
wrap_error (error m) context = classify m context
wrap_error (value m) context = classify m context
