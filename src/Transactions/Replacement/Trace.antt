-- ===== src/Transactions/Replacement/Trace.antt =====
-- What a replacement sends.
use set.Prelude.{ℕ, ◌≡◌, Option, none, some}
use set.Prelude.Text.{Text}
use set.Effects.{ok}
use set.Transactions.Replacement.{SentTransaction, Node, Outbox, first_price}

module _ {S : Type 0} (node : Node S) where
  -- The node knew the transaction `tx`, had no receipt for it, and quoted a price.
  pub record Replaceable (hash : Text) (w : Outbox S) (tx : SentTransaction) (price : ℕ)
      : Type 0 where
    pub s1 : S
    pub s2 : S
    pub s3 : S
    pub quoted : Option ℕ
    pub known : node.get_transaction hash w.env ≡ (ok (some tx), s1)
    pub unmined : node.get_transaction_receipt hash s1 ≡ (ok none, s2)
    pub priced : node.gas_price s2 ≡ (ok quoted, s3)
    pub raised : price ≡ node.multiplied (first_price tx.gas_price quoted)
