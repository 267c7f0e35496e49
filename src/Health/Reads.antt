-- ===== src/Health/Reads.antt =====
-- Which views of which contract are read for a component.
use set.Prelude.{◌≡◌, ◌⊎◌, refl, ap, Option, none, some, List, [], ◌∷◌, arith, inl, inr}
use set.Errors.{Thrown}
use set.Effects.{Action, ok, err, outcome_cases}
use set.Health.{
  Summary, Component, SystemHealthConfig, Check, success_rate, map_action, both_actions, push,
  checks_of,
}

abbrev twice : {A S : Type 0} → Option (Action S A) → Option (Action S A × Action S A)
twice none = none
twice (some m) = some (m, m)

module _ {S : Type 0} where
  -- One read, and two, of a contract that is configured.
  abbrev Once : {A : Type 0} → Option (Action S A) → (A → Summary) → S → Summary → S → Type 0
  Once {A = A} o f s x u = (m : Action S A) × (a : A) × (o ≡ some m) × (m s ≡ (ok a, u)) × (x ≡ f a)

  abbrev OnceFails : {A : Type 0} → Option (Action S A) → S → Thrown → S → Type 0
  OnceFails {A = A} o s e u = (m : Action S A) × (o ≡ some m) × (m s ≡ (err e, u))

  abbrev Twice :
      {A B : Type 0}
      → Option (Action S A × Action S B)
      → (A → B → Summary)
      → S
      → Summary
      → S
      → Type 0
  Twice {A = A} {B = B} o f s x u =
      (m : Action S A) × (k : Action S B) × (a : A) × (b : B) × (t : S) × (o ≡ some (m, k))
      × (m s ≡ (ok a, t))
      × (k t ≡ (ok b, u))
      × (x ≡ f a b)

  abbrev TwiceFails : {A B : Type 0} → Option (Action S A × Action S B) → S → Thrown → S → Type 0
  TwiceFails {A = A} {B = B} o s e u =
      (m : Action S A) × (k : Action S B) × (o ≡ some (m, k))
      × ((m s ≡ (err e, u)) ⊎ ((a : A) × (t : S) × (m s ≡ (ok a, t)) × (k t ≡ (err e, u))))

  -- The contract of a component is configured, and its views have answered with the summary.
  abbrev pub ReadBy : SystemHealthConfig S → Component → S → Summary → S → Type 0
  ReadBy config Component.registry = Once config.registry Summary.registry
  ReadBy config Component.paymaster = Twice config.paymaster Summary.paymaster
  ReadBy config Component.treasury_vault = Once config.treasury_vault Summary.treasury_vault
  ReadBy config Component.nav_oracle = Once config.nav_oracle Summary.nav_oracle
  ReadBy config Component.mempool = Twice config.mempool Summary.mempool
  ReadBy config Component.forced_inclusion = Twice config.forced_inclusion Summary.forced_inclusion
  ReadBy config Component.attestation =
      Twice (twice config.attestation)
        (λ stats again. Summary.attestation stats (success_rate again))
  ReadBy config Component.timelock = Once config.timelock Summary.timelock
  ReadBy config Component.threshold_registry =
      Once config.threshold_registry Summary.threshold_registry

  -- It is configured, and a view has thrown the error.
  abbrev pub FailsBy : SystemHealthConfig S → Component → S → Thrown → S → Type 0
  FailsBy config Component.registry = OnceFails config.registry
  FailsBy config Component.paymaster = TwiceFails config.paymaster
  FailsBy config Component.treasury_vault = OnceFails config.treasury_vault
  FailsBy config Component.nav_oracle = OnceFails config.nav_oracle
  FailsBy config Component.mempool = TwiceFails config.mempool
  FailsBy config Component.forced_inclusion = TwiceFails config.forced_inclusion
  FailsBy config Component.attestation = TwiceFails (twice config.attestation)
  FailsBy config Component.timelock = OnceFails config.timelock
  FailsBy config Component.threshold_registry = OnceFails config.threshold_registry

  -- A check reads the contract of its component.
  abbrev pub Sound : SystemHealthConfig S → Component → Action S Summary → Type 0
  Sound config c view =
      ((s : S) (x : Summary) (u : S) → view s ≡ (ok x, u) → ReadBy config c s x u)
      × ((s : S) (e : Thrown) (u : S) → view s ≡ (err e, u) → FailsBy config c s e u)

  abbrev pub AllSound : SystemHealthConfig S → List (Check S) → Type 0
  AllSound config [] = Unit
  AllSound config ((c, view) ∷ checks) = Sound config c view × AllSound config checks

  map_action-Once :
      {A : Type 0} (f : A → Summary) (o : Option (Action S A)) (m : Action S A)
      → o ≡ some m
      → ((s : S) (x : Summary) (u : S) → map_action f m s ≡ (ok x, u) → Once o f s x u)
        × ((s : S) (e : Thrown) (u : S) → map_action f m s ≡ (err e, u) → OnceFails o s e u)
  map_action-Once f o m h = (
    (λ s x u y. elim (outcome_cases (m s)) [
      | inl (a, v, p) ↦ (m, a, h, ground arith, ground arith)
      | inr (e, v, p) ↦ ground arith
    ]),
    λ s e u y. elim (outcome_cases (m s)) [
      | inl (a, v, p) ↦ ground arith
      | inr (d, v, p) ↦ (m, h, ground arith)
    ],
  )

  both_actions-Twice :
      {A B : Type 0} (f : A → B → Summary) (o : Option (Action S A × Action S B)) (m : Action S A)
      (k : Action S B)
      → o ≡ some (m, k)
      → ((s : S) (x : Summary) (u : S) → both_actions f (m, k) s ≡ (ok x, u) → Twice o f s x u)
        × ((s : S) (e : Thrown) (u : S) → both_actions f (m, k) s ≡ (err e, u) → TwiceFails o s e u)
  both_actions-Twice f o m k h = (
    (λ s x u y. elim (outcome_cases (m s)) [
      | inl (a, v, p) ↦ elim (outcome_cases (k v)) [
        | inl (b, w, q) ↦ (m, k, a, b, v, h, p, ground arith, ground arith)
        | inr (e, w, q) ↦ ground arith
      ]
      | inr (e, v, p) ↦ ground arith
    ]),
    λ s e u y. elim (outcome_cases (m s)) [
      | inl (a, v, p) ↦ elim (outcome_cases (k v)) [
        | inl (b, w, q) ↦ ground arith
        | inr (d, w, q) ↦ (m, k, h, inr (a, v, p, ground arith))
      ]
      | inr (d, v, p) ↦ (m, k, h, inl (ground arith))
    ],
  )

  AllSound-push :
      {A : Type 0} (config : SystemHealthConfig S) (c : Component) (f : A → Action S Summary)
      (o : Option A) (checks : List (Check S))
      → ((v : A) → o ≡ some v → Sound config c (f v))
      → AllSound config checks
      → AllSound config (push c f o checks)
  AllSound-push config c f none checks h a = a
  AllSound-push config c f (some v) checks h a = (h v refl, a)

  pub AllSound-checks_of : (config : SystemHealthConfig S) → AllSound config (checks_of config)
  unfolding checks_of
  AllSound-checks_of config =
      AllSound-push config _ _ config.registry _ (map_action-Once Summary.registry config.registry)
        (AllSound-push config _ _ config.paymaster _
          (λ v. both_actions-Twice Summary.paymaster config.paymaster (v.0) (v.1))
          (AllSound-push config _ _ config.treasury_vault _
            (map_action-Once Summary.treasury_vault config.treasury_vault)
            (AllSound-push config _ _ config.nav_oracle _
              (map_action-Once Summary.nav_oracle config.nav_oracle)
              (AllSound-push config _ _ config.mempool _
                (λ v. both_actions-Twice Summary.mempool config.mempool (v.0) (v.1))
                (AllSound-push config _ _ config.forced_inclusion _
                  (λ v.
                    both_actions-Twice Summary.forced_inclusion config.forced_inclusion (v.0) (v.1))
                  (AllSound-push config _ _ config.attestation _
                    (λ m h.
                      both_actions-Twice
                        (λ stats again. Summary.attestation stats (success_rate again))
                        (twice config.attestation) m m (ap twice h))
                    (AllSound-push config _ _ config.timelock _
                      (map_action-Once Summary.timelock config.timelock)
                      (AllSound-push config _ _ config.threshold_registry []
                        (map_action-Once Summary.threshold_registry config.threshold_registry)
                        tt))))))))
