-- ===== src/Polling/Rounds.antt =====
-- The polling loop against the rounds that it makes, with a bound on their number.
use mathlib.Core.Path.{subst}
use set.Prelude.{
  ℕ, zero, suc, ◌+◌, ◌*◌, ◌/◌, ◌≤◌, ◌<◌, ◌≡◌, refl, ap, ◌∙◌, true, false, ◌⊎◌, Option, none, some,
  inl, inr, arith, ltb, ltb→lt, Bool-cases,
}
use set.Errors.{Thrown}
use set.Effects.{Result, ok, err, Action, outcome_cases}
use set.Retry.{Runtime}
use set.Polling.{poll_from, poll}

module _ {S A : Type 0} (rt : Runtime S) (body : Action S (Option A)) (interval timeout : ℕ)
    (late : Thrown) (start : ℕ) where
  -- The runs that are meant, with the number of rounds begun: a round is begun before the deadline only;
  -- it throws, or it returns, or after the interval comes the next. At the deadline the timeout is thrown.
  pub data Polls : ℕ → S → Result A → S → Type 0 where
    expires : {s : S} → start + timeout ≤ rt.clock s → Polls zero s (err late) s
    throws :
        {s s' : S} (e : Thrown)
        → rt.clock s < start + timeout
        → body s ≡ (err e, s')
        → Polls (suc zero) s (err e) s'
    returns :
        {s s' : S} (a : A)
        → rt.clock s < start + timeout
        → body s ≡ (ok (some a), s')
        → Polls (suc zero) s (ok a) s'
    goes_on :
        {n : ℕ} {s s' t : S} {r : Result A}
        → rt.clock s < start + timeout
        → body s ≡ (ok none, s')
        → Polls n (rt.sleep interval s') r t
        → Polls (suc n) s r t

  step_expires :
      (n : ℕ) (s : S)
      → ltb (rt.clock s) (start + timeout) ≡ false
      → poll_from rt body interval timeout late (suc n) start s ≡ some (err late, s)
  unfolding poll_from
  step_expires n s h = ground arith

  step_throws :
      (n : ℕ) (s : S) {s' : S} {e : Thrown}
      → ltb (rt.clock s) (start + timeout) ≡ true
      → body s ≡ (err e, s')
      → poll_from rt body interval timeout late (suc n) start s ≡ some (err e, s')
  unfolding poll_from
  step_throws n s h p = ground arith

  step_returns :
      (n : ℕ) (s : S) {s' : S} {a : A}
      → ltb (rt.clock s) (start + timeout) ≡ true
      → body s ≡ (ok (some a), s')
      → poll_from rt body interval timeout late (suc n) start s ≡ some (ok a, s')
  unfolding poll_from
  step_returns n s h p = ground arith

  step_goes_on :
      (n : ℕ) (s : S) {s' : S}
      → ltb (rt.clock s) (start + timeout) ≡ true
      → body s ≡ (ok none, s')
      → poll_from rt body interval timeout late (suc n) start s
        ≡ poll_from rt body interval timeout late n start (rt.sleep interval s')
  unfolding poll_from
  step_goes_on n s h p = ground arith

  -- What the loop ends with comes from a round, or is the timeout.
  abbrev pub Answers : Result A → S → Type 0
  Answers (ok a) t = (u : S) × (rt.clock u < start + timeout) × (body u ≡ (ok (some a), t))
  Answers (err e) t = (e ≡ late) ⊎ ((u : S) × (body u ≡ (err e, t)))

  abbrev Answered : Option (Result A × S) → Type 0
  Answered none = Unit
  Answered (some (r, t)) = Answers r t

  poll_from-Answered :
      (n : ℕ) (s : S) → Answered (poll_from rt body interval timeout late n start s)
  unfolding poll_from
  poll_from-Answered zero s = tt
  poll_from-Answered (suc n) s = elim (Bool-cases (ltb (rt.clock s) (start + timeout))) [
    | inr over ↦ rw (step_expires n s over) (inl refl)
    | inl before ↦ elim (outcome_cases (body s)) [
      | inr (e, s', p) ↦ rw (step_throws n s before p) (inr (s, p))
      | inl (some a, s', p) ↦ rw (step_returns n s before p) (s, ltb→lt _ _ before, p)
      | inl (none, s', p) ↦
          rw (step_goes_on n s before p) (poll_from-Answered n (rt.sleep interval s'))
    ]
  ]

  poll_from-Answers :
      (n : ℕ) (s t : S) (r : Result A)
      → poll_from rt body interval timeout late n start s ≡ some (r, t)
      → Answers r t
  poll_from-Answers n s t r h = subst Answered h (poll_from-Answered n s)

  -- The clock never goes back while a round runs, and a pause lasts at least the interval.
  pub record Ticks : Type 0 where
    pub forward : (s : S) → rt.clock s ≤ rt.clock (body s).1
    pub waits : (s : S) → rt.clock s + interval ≤ rt.clock (rt.sleep interval s)
    pub positive : 0 < interval

  -- How a run of the loop ended: with this result, in this state, after so many rounds, all of them
  -- begun before the deadline.
  pub record Ends (s : S) (x : Option (Result A × S)) : Type 0 where
    pub rounds : ℕ
    pub result : Result A
    pub final : S
    pub returned : x ≡ some (result, final)
    pub run : Polls rounds s result final
    pub in_time : (rounds ≡ 0) ⊎ (rounds * interval + rt.clock s < start + timeout + interval)

  later :
      Ticks
      → {s s' : S} {r : Result (Option A)} → body s ≡ (r, s')
      → rt.clock s + interval ≤ rt.clock (rt.sleep interval s')
  later k {s} {s'} p =
      omega (arith, k.forward s, k.waits s', ap (λ (x : Result (Option A) × S). rt.clock x.1) p)

  again_in_time :
      (m : ℕ) (s t : S)
      → rt.clock s < start + timeout
      → rt.clock s + interval ≤ rt.clock t
      → (m ≡ 0) ⊎ (m * interval + rt.clock t < start + timeout + interval)
      → (suc m ≡ 0) ⊎ (suc m * interval + rt.clock s < start + timeout + interval)
  again_in_time m s t h k (inl e) = inr (rw e (omega arith))
  again_in_time m s t h k (inr e) = inr (grind arith)

  expired-Ends :
      (n : ℕ) (s : S)
      → start + timeout ≤ rt.clock s
      → Ends s (poll_from rt body interval timeout late (suc n) start s)
  expired-Ends n s h = record {
    rounds = zero;
    result = err late;
    final = s;
    returned = step_expires n s (ground arith);
    run = expires h;
    in_time = inl refl;
  }

  goes_on-Ends :
      (k : Ticks) (n : ℕ) (s s' : S)
      → rt.clock s < start + timeout
      → body s ≡ (ok none, s')
      → Ends
          (rt.sleep interval s')
          (poll_from rt body interval timeout late n start (rt.sleep interval s'))
      → Ends s (poll_from rt body interval timeout late (suc n) start s)
  goes_on-Ends k n s s' early p rest = record {
    rounds = suc rest.rounds;
    result = rest.result;
    final = rest.final;
    returned = step_goes_on n s (ground arith) p ∙ rest.returned;
    run = goes_on early p rest.run;
    in_time = again_in_time rest.rounds s (rt.sleep interval s') early (later k p) rest.in_time;
  }

  pub poll_from-Ends :
      (k : Ticks) (n : ℕ) (s : S)
      → start + timeout ≤ rt.clock s + n * interval
      → Ends s (poll_from rt body interval timeout late (suc n) start s)
  poll_from-Ends k zero s h = expired-Ends zero s (omega arith)
  poll_from-Ends k (suc n) s h = elim (Bool-cases (ltb (rt.clock s) (start + timeout))) [
    | inr over ↦ expired-Ends (suc n) s (ground arith)
    | inl before ↦
        let early : rt.clock s < start + timeout = ltb→lt _ _ before in
        elim (outcome_cases (body s)) [
          | inr (e, s', p) ↦ record {
            rounds = suc zero;
            result = err e;
            final = s';
            returned = step_throws (suc n) s before p;
            run = throws e early p;
            in_time = inr (omega arith);
          }
          | inl (some a, s', p) ↦ record {
            rounds = suc zero;
            result = ok a;
            final = s';
            returned = step_returns (suc n) s before p;
            run = returns a early p;
            in_time = inr (omega arith);
          }
          | inl (none, s', p) ↦
              goes_on-Ends k (suc n) s s' early p
                (poll_from-Ends k n (rt.sleep interval s') (grind (arith, later k p)))
        ]
  ]

module _ {S A : Type 0} (rt : Runtime S) (body : Action S (Option A)) (interval timeout : ℕ)
    (late : Thrown) where
  covers : (s : ℕ) → 0 < interval → s + timeout ≤ s + (timeout / interval + 1) * interval
  covers s h = grind arith

  -- On a clock that ticks the loop always ends, with the result of a run that is meant.
  pub poll-Ends :
      (s : S)
      → Ticks rt body interval timeout late (rt.clock s)
      → Ends rt body interval timeout late (rt.clock s) s (poll rt body interval timeout late s)
  unfolding poll
  poll-Ends s k =
      poll_from-Ends rt body interval timeout late (rt.clock s) k (timeout / interval + 1) s
        (covers (rt.clock s) k.positive)

  pub poll-Answers :
      (s t : S) (r : Result A)
      → poll rt body interval timeout late s ≡ some (r, t)
      → Answers rt body interval timeout late (rt.clock s) r t
  unfolding poll
  poll-Answers s t r h =
      poll_from-Answers rt body interval timeout late (rt.clock s) (suc (timeout / interval + 1)) s
        t r h
