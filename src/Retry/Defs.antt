-- ===== src/Retry/Defs.antt =====
-- The definitions of sdk/src/utils/retry.ts.
use set.Prelude.{
  ℕ, zero, suc, ◌+◌, ◌-◌, ◌*◌, ◌/◌, ◌^◌, Bool, true, false, not, ◌||◌, ◌++◌, ltb, leb,
  if◌then◌else◌,
}
use set.Prelude.Text.{Text, codes, includes, to_lower_case, decimal}
use set.Errors.{SdkErrorCode, Thrown, sdk, agent, error, value, message_of, new_network_error}
use set.Effects.{ok, err, Action}

-- What the JavaScript engine supplies. `clock` is `Date.now()`, in milliseconds.
pub record Runtime (S : Type 0) : Type 0 where
  pub clock : S → ℕ
  pub sleep : ℕ → S → S
  pub random : S → ℕ × S

pub record RetryOptions (S : Type 0) : Type 0 where
  pub max_attempts : ℕ
  pub initial_delay_ms : ℕ
  pub max_delay_ms : ℕ
  pub backoff_multiplier : ℕ
  pub jitter : Bool
  pub is_retryable : Thrown → Bool
  pub on_retry : ℕ → Thrown → ℕ → S → S

-- The codes of `nonRetryable`.
abbrev pub is_user_error : SdkErrorCode → Bool
is_user_error SdkErrorCode.invalid_address = true
is_user_error SdkErrorCode.invalid_amount = true
is_user_error SdkErrorCode.invalid_data = true
is_user_error SdkErrorCode.validation_error = true
is_user_error SdkErrorCode.insufficient_balance = true
is_user_error SdkErrorCode.insufficient_allowance = true
is_user_error SdkErrorCode.transaction_reverted = true
is_user_error _ = false

is_transient : Text → Bool
is_transient m =
    includes m (codes "network")
    || includes m (codes "timeout")
    || includes m (codes "econnreset")
    || includes m (codes "econnrefused")
    || includes m (codes "socket")
    || includes m (codes "rate limit")
    || includes m (codes "429")
    || includes m (codes "503")
    || includes m (codes "502")

unfoldable pub default_is_retryable : Thrown → Bool
unfolding is_transient
default_is_retryable (sdk e) = not (is_user_error e.code)
default_is_retryable (agent e) = is_transient (to_lower_case e.message)
default_is_retryable (error m) = is_transient (to_lower_case m)
default_is_retryable (value m) = false

abbrev min : ℕ → ℕ → ℕ
min a b = if ltb a b then a else b

-- `draw` is the numerator of `Math.random()`.
unfoldable pub calculate_delay : ℕ → ℕ → ℕ → ℕ → Bool → ℕ → ℕ
calculate_delay attempt initial_delay_ms max_delay_ms backoff_multiplier jitter draw =
    let base_delay = initial_delay_ms * backoff_multiplier ^ (attempt - 1) in
    let capped_delay = min base_delay max_delay_ms in
    if jitter then capped_delay + capped_delay * draw / 2 ^ 54 else capped_delay

module _ {S : Type 0} (rt : Runtime S) where
  -- `onRetry` and the sleep, after a failed attempt.
  unfoldable pub pause : RetryOptions S → ℕ → Thrown → S → S
  pause o attempt e s =
      let (draw, s') = if o.jitter then rt.random s else (0, s) in
      let delay_ms =
        calculate_delay attempt o.initial_delay_ms o.max_delay_ms o.backoff_multiplier o.jitter
          draw in
      rt.sleep delay_ms (o.on_retry attempt e delay_ms s')

-- What is thrown at the end.
unfoldable pub final_error : ℕ → Thrown → Thrown
final_error max_attempts (sdk e) = sdk e
final_error max_attempts e = sdk (
    new_network_error (
      codes "Operation failed after "
      ++ (decimal max_attempts ++ (codes " attempts: " ++ message_of e))))

module _ {S A : Type 0} (rt : Runtime S) (fn : Action S A) (o : RetryOptions S) where
  -- The loop, on the rounds left, at the given attempt.
  unfoldable pub retry_from : ℕ → ℕ → Thrown → Action S A
  retry_from zero attempt last s = (err (final_error o.max_attempts last), s)
  retry_from (suc rounds) attempt last s =
      let (r, s') = fn s in
      elim r [
        | ok a ↦ (ok a, s')
        | err e ↦
            let again = retry_from rounds (suc attempt) e (pause rt o attempt e s') in
            if leb o.max_attempts attempt || not (o.is_retryable e)
            then (err (final_error o.max_attempts e), s')
            else again
      ]

  -- With no attempt allowed the error is made of `undefined`.
  unfoldable pub with_retry : Action S A
  unfolding retry_from
  with_retry = retry_from o.max_attempts 1 (value (codes "undefined"))

abbrev pub default_retry_options : {S : Type 0} → RetryOptions S
default_retry_options = record {
  max_attempts = 3;
  initial_delay_ms = 1000;
  max_delay_ms = 30000;
  backoff_multiplier = 2;
  jitter = true;
  is_retryable = default_is_retryable;
  on_retry = λ attempt e delay_ms s. s;
}
