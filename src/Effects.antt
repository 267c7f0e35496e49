-- ===== src/Effects.antt =====
-- Asynchronous code as state passing: an action reads and changes the world `S` and ends with a value
-- or with what was thrown. `await` is the bind of the monad, so an action runs alone between two
-- awaits of its own; a `Promise.all` is run from left to right.
use set.Prelude.{Bool, true, false, ◌≡◌, refl, ◌⊎◌, inl, inr, arith}
use set.Errors.{Thrown}

pub data Result (A : Type 0) : Type 0 where
  ok : A → Result A
  err : Thrown → Result A

abbrev pub Action : Type 0 → Type 0 → Type 0
Action S A = S → Result A × S

module _ {S : Type 0} where
  infixl 5 ◌>>=◌ ◌>>◌
  abbrev pub pure : {A : Type 0} → A → Action S A
  pure a s = (ok a, s)

  abbrev pub throw : {A : Type 0} → Thrown → Action S A
  throw e s = (err e, s)

  abbrev pub ◌>>=◌ : {A B : Type 0} → Action S A → (A → Action S B) → Action S B
  ◌>>=◌ m f s = let (r, s') = m s in elim r [ ok a ↦ f a s' | err e ↦ (err e, s') ]

  abbrev pub ◌>>◌ : {A B : Type 0} → Action S A → Action S B → Action S B
  m >> k = m >>= λ _. k

  -- `if (b) throw e`
  abbrev pub throw_if : Bool → Thrown → Action S (Unit {0})
  throw_if true e s = (err e, s)
  throw_if false e s = (ok tt, s)

  -- `if (b) await m`
  abbrev pub when : Bool → Action S (Unit {0}) → Action S (Unit {0})
  when true m = m
  when false m = pure tt

  -- The body of a `try` with a handler that throws.
  abbrev pub catch : {A : Type 0} → Action S A → (Thrown → Thrown) → Action S A
  catch m h s = let (r, s') = m s in elim r [ ok a ↦ (ok a, s') | err e ↦ (err (h e), s') ]

  -- A value that is computed with no effect, or thrown.
  abbrev pub lift : {A : Type 0} → Result A → Action S A
  lift r s = (r, s)

-- To split on how an action ended.
pub outcome_cases :
    {S A : Type 0} (x : Result A × S)
    → ((a : A) × (s : S) × (x ≡ (ok a, s))) ⊎ ((e : Thrown) × (s : S) × (x ≡ (err e, s)))
outcome_cases (ok a, s) = inl (a, s, refl)
outcome_cases (err e, s) = inr (e, s, refl)

-- A bind whose first action has ended is what follows it, or nothing.
pub >>=-of_ok :
    {S A B : Type 0} (m : Action S A) (f : A → Action S B) {s t : S} {a : A}
    → m s ≡ (ok a, t)
    → (m >>= f) s ≡ f a t
>>=-of_ok m f h = ground arith

pub >>=-of_err :
    {S A B : Type 0} (m : Action S A) (f : A → Action S B) {s t : S} {e : Thrown}
    → m s ≡ (err e, t)
    → (m >>= f) s ≡ (err e, t)
>>=-of_err m f h = ground arith

pub result_cases :
    {A : Type 0} (r : Result A) → ((a : A) × (r ≡ ok a)) ⊎ ((e : Thrown) × (r ≡ err e))
result_cases (ok a) = inl (a, refl)
result_cases (err e) = inr (e, refl)
