-- ===== src/Retry/Attempts.antt =====
-- `withRetry` against the attempts that it makes.
use set.Prelude.{
  ℕ, zero, suc, ◌+◌, ◌≤◌, ◌<◌, ◌≡◌, refl, ap, true, false, not, ◌||◌, inl, inr, arith, leb, leb→le,
  Bool-cases,
}
use set.Errors.{SdkError, Thrown, sdk}
use set.Effects.{outcome_cases, Result, ok, err, Action}
use set.Retry.Defs.{Runtime, RetryOptions, pause, final_error, retry_from, with_retry}

abbrev pub IsSdk : Thrown → Type 0
IsSdk t = (e : SdkError) × (t ≡ sdk e)

module _ {S A : Type 0} (rt : Runtime S) (fn : Action S A) (o : RetryOptions S) where
  -- The runs that are meant: attempt `k` is made in a state, and ends the run with a value, ends it with
  -- an error that is not to be retried, is the last one allowed, or is followed by a pause and
  -- attempt `k + 1`.
  pub data Runs : ℕ → S → Result A → S → Type 0 where
    returns : {k : ℕ} {s s' : S} (a : A) → fn s ≡ (ok a, s') → Runs k s (ok a) s'
    refuses :
        {k : ℕ} {s s' : S} (e : Thrown)
        → fn s ≡ (err e, s')
        → o.is_retryable e ≡ false
        → Runs k s (err (final_error o.max_attempts e)) s'
    exhausts :
        {k : ℕ} {s s' : S} (e : Thrown)
        → fn s ≡ (err e, s')
        → o.max_attempts ≤ k
        → Runs k s (err (final_error o.max_attempts e)) s'
    retries :
        {k : ℕ} {s s' t : S} {r : Result A} (e : Thrown)
        → fn s ≡ (err e, s')
        → o.is_retryable e ≡ true
        → k < o.max_attempts
        → Runs (suc k) (pause rt o k e s') r t
        → Runs k s r t

  retry_step_ok :
      (n k : ℕ) (last : Thrown) {s s' : S} {a : A}
      → fn s ≡ (ok a, s')
      → retry_from rt fn o (suc n) k last s ≡ (ok a, s')
  unfolding retry_from
  retry_step_ok n k last p = ground arith

  retry_step_stop :
      (n k : ℕ) (last : Thrown) {s s' : S} {e : Thrown}
      → fn s ≡ (err e, s')
      → (leb o.max_attempts k || not (o.is_retryable e)) ≡ true
      → retry_from rt fn o (suc n) k last s ≡ (err (final_error o.max_attempts e), s')
  unfolding retry_from
  retry_step_stop n k last p h = ground arith

  retry_step_again :
      (n k : ℕ) (last : Thrown) {s s' : S} {e : Thrown}
      → fn s ≡ (err e, s')
      → (leb o.max_attempts k || not (o.is_retryable e)) ≡ false
      → retry_from rt fn o (suc n) k last s ≡ retry_from rt fn o n (suc k) e (pause rt o k e s')
  unfolding retry_from
  retry_step_again n k last p h = ground arith

  retry_from-Runs :
      (n k : ℕ) (last : Thrown) (s : S)
      → 0 < n
      → n + k ≡ o.max_attempts + 1
      → let x = retry_from rt fn o n k last s in Runs k s x.0 x.1
  retry_from-Runs zero k last s h e = elim h [ ]
  retry_from-Runs (suc n) k last s h e = elim (outcome_cases (fn s)) [
    | inl (a, s', p) ↦ rw (retry_step_ok n k last p) (returns a p)
    | inr (x, s', p) ↦ elim (Bool-cases (leb o.max_attempts k)) [
      | inl m ↦ rw (retry_step_stop n k last p (rw m)) (exhausts x p (leb→le _ _ m))
      | inr m ↦ elim (Bool-cases (o.is_retryable x)) [
        | inl y ↦ rw (retry_step_again n k last p (rw (m, y))) (
            retries x p y (ground arith)
              (retry_from-Runs n (suc k) x (pause rt o k x s') (ground arith) (omega arith)))
        | inr y ↦ rw (retry_step_stop n k last p (rw (m, y) refl)) (refuses x p y)
      ]
    ]
  ]

  final_error-IsSdk : (m : ℕ) (e : Thrown) → IsSdk (final_error m e)
  unfolding final_error
  final_error-IsSdk m (sdk e) = (e, refl)
  final_error-IsSdk m _ = (_, refl)

  -- What a run with an error ends with.
  abbrev pub EndsSdk : Result A → Type 0
  EndsSdk (ok a) = Unit
  EndsSdk (err e) = IsSdk e

  retry_from-EndsSdk : (n k : ℕ) (last : Thrown) (s : S) → EndsSdk (retry_from rt fn o n k last s).0
  unfolding retry_from
  retry_from-EndsSdk zero k last s = final_error-IsSdk o.max_attempts last
  retry_from-EndsSdk (suc n) k last s = elim (outcome_cases (fn s)) [
    | inl (a, s', p) ↦ rw (retry_step_ok n k last p) tt
    | inr (x, s', p) ↦ elim (Bool-cases (leb o.max_attempts k || not (o.is_retryable x))) [
      | inl b ↦ rw (retry_step_stop n k last p b) (final_error-IsSdk o.max_attempts x)
      | inr b ↦
          rw (retry_step_again n k last p b) (retry_from-EndsSdk n (suc k) x (pause rt o k x s'))
    ]
  ]

  -- A count of the calls of `fn`, that nothing else changes.
  module _ (calls : S → ℕ) (counts : (s : S) → calls (fn s).1 ≡ calls s + 1)
      (still : (k : ℕ) (e : Thrown) (s : S) → calls (pause rt o k e s) ≡ calls s) where
    Runs-calls :
        {k : ℕ} {s t : S} {r : Result A}
        → Runs k s r t
        → k ≤ o.max_attempts
        → (calls s + 1 ≤ calls t) × (calls t + k ≤ calls s + o.max_attempts + 1)
    Runs-calls {s = s} (returns a p) h = omega (arith, counts s, ap (λ x. calls x.1) p)
    Runs-calls {s = s} (refuses e p q) h = omega (arith, counts s, ap (λ x. calls x.1) p)
    Runs-calls {s = s} (exhausts e p q) h = omega (arith, counts s, ap (λ x. calls x.1) p)
    Runs-calls {s = s} (retries e p y m rest) h =
        omega (arith, counts s, ap (λ x. calls x.1) p, still _ e _, Runs-calls rest (omega arith))

  -- With at least one attempt allowed, `withRetry` makes exactly the attempts that are meant.
  pub with_retry-Runs :
      (s : S) → 0 < o.max_attempts → let x = with_retry rt fn o s in Runs 1 s x.0 x.1
  unfolding with_retry
  with_retry-Runs s h = retry_from-Runs o.max_attempts 1 _ s h refl

  module _ (calls : S → ℕ) (counts : (s : S) → calls (fn s).1 ≡ calls s + 1)
      (still : (k : ℕ) (e : Thrown) (s : S) → calls (pause rt o k e s) ≡ calls s) where
    -- If every run of the operation is counted, and a pause runs it never, then `withRetry` runs the
    -- operation at least once and at most as often as attempts are allowed, of which there is one.
    pub with_retry_calls :
        (s : S)
        → 0 < o.max_attempts
        → let t = (with_retry rt fn o s).1 in
          (calls s + 1 ≤ calls t) × (calls t ≤ calls s + o.max_attempts)
    with_retry_calls s h =
        let (low, high) = Runs-calls calls counts still (with_retry-Runs s h) h in
        (low, omega (arith, high))

  retry_from_refused :
      (n k : ℕ) (last : Thrown) {s s' : S} {e : Thrown}
      → fn s ≡ (err e, s')
      → o.is_retryable e ≡ false
      → 0 < n
      → retry_from rt fn o n k last s ≡ (err (final_error o.max_attempts e), s')
  retry_from_refused zero k last p q h = elim h [ ]
  retry_from_refused (suc n) k last {s = s} {e = e} p q h =
      elim (Bool-cases (leb o.max_attempts k)) [
        | inl m ↦ retry_step_stop n k last p (ground arith)
        | inr m ↦ retry_step_stop n k last p (ground arith)
      ]

  -- An operation that fails with an error that is not to be retried is run once only: there is no
  -- pause, and what it threw is thrown, as an `SDKError`.
  pub with_retry_refused :
      (s s' : S) (e : Thrown)
      → fn s ≡ (err e, s')
      → o.is_retryable e ≡ false
      → 0 < o.max_attempts
      → (with_retry rt fn o s ≡ (err (final_error o.max_attempts e), s'))
        × IsSdk (final_error o.max_attempts e)
  unfolding with_retry
  with_retry_refused s s' e p q h =
      (retry_from_refused o.max_attempts 1 _ p q h, final_error-IsSdk o.max_attempts e)

  -- Whatever it is given, also with no attempt allowed, `withRetry` throws only an `SDKError`.
  pub with_retry-EndsSdk : (s : S) → EndsSdk (with_retry rt fn o s).0
  unfolding with_retry
  with_retry-EndsSdk s = retry_from-EndsSdk o.max_attempts 1 _ s
