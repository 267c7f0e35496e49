-- ===== src/Stablecoin/Wrapping.antt =====
-- Which transactions `wrap` and `unwrap` send, and under which guards.
use mathlib.Core.Path.{subst, subst₂}
use set.Prelude.{◌≡◌, refl, sym, ◌⊎◌, inl, inr, List, ◌∷◌, arith, Bool-cases}
use set.Prelude.Int.{ℤ, pos, ◌≤ℤ◌, leb_ℤ}
use set.Prelude.Text.{codes}
use set.Effects.{Result, Action, outcome_cases, pure, lift, ◌>>=◌, ◌>>◌}
use set.Validation.{validate_positive_amount}
use set.Stablecoin.Chain.{
  Tx, Event, Contracts, World, transact, approve_if_needed, event_arg, or_throw, transaction_failed,
}
use set.Stablecoin.Operations.{
  WrapResult, check_balance, wrap, wrap_checked, unwrap, unwrap_checked,
}
use set.Stablecoin.Steps.{
  Trace, SendsOne, approve_then, check_balance-Quiet, transact_sends, wrapping_state,
  check_balance_ok,
}
use set.Stablecoin.Traces.{Funded}

module _ {E : Type 0} (c : Contracts E) where
  abbrev wrap_steps : ℤ → Action (World E) WrapResult
  wrap_steps amount = do
    receipt ← transact c (Tx.wrap amount) (codes "Wrap failed")
    received ← lift (
        or_throw (transaction_failed (codes "Wrap event parsing failed"))
          (event_arg c receipt Event.wrapped (codes "wSSDCAmount")))
    pure (record { tx_hash = receipt.hash; wss_usd_received = received })

  wrap-SendsOne : (amount : ℤ) → SendsOne c (λ tx. tx ≡ Tx.wrap amount) (wrap_steps amount)
  wrap-SendsOne amount v =
      inr (_, refl, ground (arith, transact_sends c (Tx.wrap amount) (codes "Wrap failed") v))

  wrap_checked-Trace :
      (amount : ℤ) (w : World E)
      → let sent' = (wrap_checked c amount w).1.sent in
        (sent' ≡ w.sent)
        ⊎ (Funded c c.addresses.ss_usd amount
            × Trace c c.addresses.ss_usd c.addresses.wss_usd amount
                (λ tx. tx ≡ Tx.wrap amount)
                w.sent
                sent')
  unfolding wrap_checked
  wrap_checked-Trace amount w = elim (outcome_cases (check_balance c c.addresses.ss_usd amount w)) [
    | inr (e, u, p) ↦ inl (ground (arith, check_balance-Quiet c c.addresses.ss_usd amount w))
    | inl (_, u, p) ↦
        let (balance, found, enough) = check_balance_ok c c.addresses.ss_usd amount w u p in
        let quiet : u.sent ≡ w.sent =
          ground (arith, check_balance-Quiet c c.addresses.ss_usd amount w) in
        let e : wrap_checked c amount w
            ≡ (approve_if_needed c c.addresses.ss_usd c.addresses.wss_usd amount
                  >> wrap_steps amount)
                u =
          ground arith in
        inr (
          (balance, (w, u, found), enough),
          subst₂
              (λ (a : List Tx) (o : Result WrapResult × World E).
                Trace c c.addresses.ss_usd c.addresses.wss_usd amount (λ tx. tx ≡ Tx.wrap amount) a
                  o.1.sent)
              quiet (sym e)
              (approve_then c c.addresses.ss_usd c.addresses.wss_usd amount _ (wrap_steps amount) u
                (wrap-SendsOne amount)),
        )
  ]

  unwrap_checked_trace :
      (amount : ℤ) (w : World E)
      → let sent' = (unwrap_checked c amount w).1.sent in
        (sent' ≡ w.sent)
        ⊎ (Funded c c.addresses.wss_usd amount × (sent' ≡ Tx.unwrap amount ∷ w.sent))
  unfolding unwrap_checked
  unwrap_checked_trace amount w =
      elim (outcome_cases (check_balance c c.addresses.wss_usd amount w)) [
        | inr (e, u, p) ↦ inl (ground (arith, check_balance-Quiet c c.addresses.wss_usd amount w))
        | inl (_, u, p) ↦
            let (balance, found, enough) = check_balance_ok c c.addresses.wss_usd amount w u p in
            let quiet : u.sent ≡ w.sent =
              ground (arith, check_balance-Quiet c c.addresses.wss_usd amount w) in
            inr (
              (balance, (w, u, found), enough),
              ground (arith, transact_sends c (Tx.unwrap amount) (codes "Unwrap failed") u),
            )
      ]

  -- What wrapping and unwrapping may send. Nothing; or the amount is positive and the signer was found to
  -- have it, and then wrapping sends one approval of just the amount at most, and after that the wrap or
  -- nothing, and unwrapping sends the unwrap.
  pub record Conversions (amount : ℤ) (w : World E) : Type 0 where
    pub wraps :
        ((wrap c amount w).1.sent ≡ w.sent)
        ⊎ ((pos 1 ≤ℤ amount)
            × Funded c c.addresses.ss_usd amount
            × Trace c c.addresses.ss_usd c.addresses.wss_usd amount
                (λ tx. tx ≡ Tx.wrap amount)
                w.sent
                (wrap c amount w).1.sent)
    pub unwraps :
        ((unwrap c amount w).1.sent ≡ w.sent)
        ⊎ ((pos 1 ≤ℤ amount)
            × Funded c c.addresses.wss_usd amount
            × ((unwrap c amount w).1.sent ≡ Tx.unwrap amount ∷ w.sent))

  -- `wrap` and `unwrap` send nothing; or the amount is positive and the signer was found to have it, and
  -- then `wrap` sends one approval of just the amount at most, and after that the wrap or nothing, and
  -- `unwrap` sends the unwrap alone.
  pub wrap-Conversions : (amount : ℤ) (w : World E) → Conversions amount w
  unfolding wrap unwrap validate_positive_amount
  wrap-Conversions amount w = elim (Bool-cases (leb_ℤ amount (pos 0))) [
    | inl n ↦ record { wraps = inl (ground arith); unwraps = inl (ground arith) }
    | inr n ↦
        let e : (wrap c amount w).1 ≡ (wrap_checked c amount w).1 =
          ground (arith, wrapping_state c (codes "Wrap failed") (wrap_checked c amount) w) in
        let e' : (unwrap c amount w).1 ≡ (unwrap_checked c amount w).1 =
          ground (arith, wrapping_state c (codes "Unwrap failed") (unwrap_checked c amount) w) in
        record {
          wraps = elim (wrap_checked-Trace amount w) [
            | inl t ↦ inl (ground arith)
            | inr (f, t) ↦ inr (
              ground arith,
              f,
              subst
                  (λ (x : World E).
                    Trace c c.addresses.ss_usd c.addresses.wss_usd amount
                      (λ tx. tx ≡ Tx.wrap amount) w.sent x.sent)
                  (sym e) t,
            )
          ];
          unwraps = elim (unwrap_checked_trace amount w) [
            | inl t ↦ inl (ground arith)
            | inr (f, t) ↦ inr (ground arith, f, ground arith)
          ];
        }
  ]
