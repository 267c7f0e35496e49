-- ===== src/Polling/Until.antt =====
-- `pollUntil`: it ends, and what it ends with.
use set.Prelude.{ℕ, ◌+◌, ◌<◌, ◌≡◌, true, false, Bool, Option, ◌++◌, some, inl, inr, arith}
use set.Prelude.Text.{Text, codes}
use set.Errors.{Thrown}
use set.Effects.{ok, Action, pure, ◌>>=◌, outcome_cases}
use set.Retry.{Runtime}
use set.Polling.{poll_until, found_if, timeout_error}
use set.Polling.Rounds.{Ticks, Ends, poll-Ends, poll-Answers}

-- A round of `pollUntil`.
abbrev pub until_round : {S : Type 0} → Action S Bool → Action S (Option (Unit {0}))
until_round fn = do result ← fn; pure (found_if result)

abbrev pub not_met : Text → Thrown
not_met operation = timeout_error (operation ++ codes " not met")

module _ {S : Type 0} (rt : Runtime S) (fn : Action S Bool) (interval_ms timeout_ms : ℕ)
    (operation : Text) where
  -- On a clock that never goes back and with a timer that waits at least the interval, which is positive,
  -- `pollUntil` always ends: after rounds that were all begun before the deadline, and of which there
  -- are less than the timeout divided by the interval, and one.
  pub poll_until-Ends :
      (s : S)
      → Ticks rt (until_round fn) interval_ms timeout_ms (not_met operation) (rt.clock s)
      → Ends rt
          (until_round fn)
          interval_ms
          timeout_ms
          (not_met operation)
          (rt.clock s)
          s
          (poll_until rt fn interval_ms timeout_ms operation s)
  unfolding poll_until
  poll_until-Ends s k = poll-Ends rt (until_round fn) interval_ms timeout_ms (not_met operation) s k

  round_true : (u t : S) → until_round fn u ≡ (ok (some tt), t) → fn u ≡ (ok true, t)
  round_true u t h = elim (outcome_cases (fn u)) [
    | inr (e, v, p) ↦ absurd (ground arith)
    | inl (true, v, p) ↦ ground arith
    | inl (false, v, p) ↦ absurd (ground arith)
  ]

  -- If `pollUntil` returns, then its function has just returned true, and was called before the deadline.
  pub poll_until-true :
      (s t : S)
      → poll_until rt fn interval_ms timeout_ms operation s ≡ some (ok tt, t)
      → (u : S) × (rt.clock u < rt.clock s + timeout_ms) × (fn u ≡ (ok true, t))
  unfolding poll_until
  poll_until-true s t h =
      let (u, early, p) =
        poll-Answers rt (until_round fn) interval_ms timeout_ms (not_met operation) s t (ok tt) h in
      (u, early, round_true u t p)
