-- ===== src/Agent/Quiet.antt =====
-- Actions that send no transaction.
use set.Prelude.{◌≡◌}
use set.Effects.{Action}
use set.Agent.Chain.{World}

module _ {E : Type 0} where
  abbrev pub Quiet : {A : Type 0} → Action (World E) A → Type 0
  Quiet m = (w : World E) → (m w).1.sent ≡ w.sent
