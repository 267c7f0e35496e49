-- ===== src/Transactions/Replacement.antt =====
-- `speedUpTransaction` and `cancelTransaction`: a transaction that is not mined yet is replaced by
-- one of the same nonce and a higher gas price. The provider and the wallet are the parameter `Node`.
pub mod Trace
use set.Prelude.{ℕ, suc, Bool, true, false, Option, none, some, List, ◌∷◌}
use set.Prelude.Text.{Text, codes}
use set.Errors.{Thrown, error}
use set.Effects.{Result, ok, err, Action, pure, throw_if, ◌>>=◌, ◌>>◌}
use set.Transactions.Builder.{TransactionReceipt}

-- The fields of a transaction of the node that are read.
pub record SentTransaction : Type 0 where
  pub to : Option Text
  pub data_ : Text
  pub value : ℕ
  pub nonce : ℕ
  pub gas_limit : ℕ
  pub gas_price : Option ℕ

pub record TransactionRequest : Type 0 where
  pub to : Option Text
  pub data_ : Text
  pub value : ℕ
  pub nonce : ℕ
  pub gas_limit : ℕ
  pub gas_price : ℕ

-- `multiplied x` is `BigInt(Math.ceil(Number(x) * gasPriceMultiplier))`.
pub record Node (S : Type 0) : Type 0 where
  pub get_transaction : Text → Action S (Option SentTransaction)
  pub get_transaction_receipt : Text → Action S (Option TransactionReceipt)
  pub gas_price : Action S (Option ℕ)
  pub send_transaction : TransactionRequest → Action S Text
  pub address : Text
  pub multiplied : ℕ → ℕ

pub record Outbox (S : Type 0) : Type 0 where
  pub env : S
  pub requests : List TransactionRequest

-- `a || b || 0`: 0 is false.
abbrev pub first_price : Option ℕ → Option ℕ → ℕ
first_price (some (suc n)) b = suc n
first_price _ (some n) = n
first_price _ none = 0

abbrev pub is_some : {A : Type 0} → Option A → Bool
is_some none = false
is_some (some a) = true

-- `if (!x) throw new Error(message)`
abbrev pub require : {S A : Type 0} → Text → Option A → Action S A
require message none s = (err (error message), s)
require message (some a) s = (ok a, s)

module _ {S : Type 0} (node : Node S) where
  abbrev pub ask : {A : Type 0} → Action S A → Action (Outbox S) A
  ask m w = let (r, s) = m w.env in (r, record w { env = s })

  abbrev pub send_request : TransactionRequest → Action (Outbox S) Text
  send_request t w =
      let (r, s) = node.send_transaction t w.env in
      (r, record { env = s; requests = t ∷ w.requests })

  -- What both functions do first: the transaction, if it is known and not mined, and the new price.
  unfoldable pub find_replaceable : Text → Action (Outbox S) (SentTransaction × ℕ)
  find_replaceable original_tx_hash = do
    found ← ask (node.get_transaction original_tx_hash)
    tx ← require (codes "Original transaction not found") found
    receipt ← ask (node.get_transaction_receipt original_tx_hash)
    throw_if (is_some receipt) (error (codes "Transaction already mined"))
    price ← ask node.gas_price
    pure (tx, node.multiplied (first_price tx.gas_price price))

  unfoldable pub speed_up_transaction : Text → Action (Outbox S) Text
  speed_up_transaction original_tx_hash = do
    (tx, new_gas_price) ← find_replaceable original_tx_hash
    send_request (record {
      to = tx.to;
      data_ = tx.data_;
      value = tx.value;
      nonce = tx.nonce;
      gas_limit = tx.gas_limit;
      gas_price = new_gas_price;
    })

  unfoldable pub cancel_transaction : Text → Action (Outbox S) Text
  cancel_transaction original_tx_hash = do
    (tx, new_gas_price) ← find_replaceable original_tx_hash
    send_request (record {
      to = some node.address;
      data_ = codes "0x";
      value = 0;
      nonce = tx.nonce;
      gas_limit = 21000;
      gas_price = new_gas_price;
    })
