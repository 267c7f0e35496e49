-- ===== src/Tests/Sending.antt =====
-- The transaction builder and the tracker at concrete inputs.
use set.Prelude.{ℕ, suc, ◌+◌, ◌≡◌, refl, ◌==◌, true, false, none, some, [], ◌∷◌, length, arith}
use set.Prelude.Int.{pos}
use set.Prelude.Text.{codes}
use set.Errors.{message_of}
use set.Effects.{ok, err}
use set.Transactions.Builder.{
  TxStatus, TxBuilderOptions, TransactionReceipt, Call, Wallet, failed_with, execute,
}
use set.Transactions.Builder.Attempts.{Run, execute-Run}
use set.Transactions.Builder.Timeouts.{timeout_error, Stalls, execute_resends}
use set.Transactions.Tracker.{TrackedTransaction, Provider, TransactionTracker, poll_transactions}
use set.Transactions.Tracker.Invariant.{IsTracking}
use set.Transactions.Tracker.Polling.{Polled, poll_transactions-Polled}
use set.Transactions.Replacement.{Node, Outbox}
use set.Tests.Fixture.{answer}

abbrev pub mined_receipt : TransactionReceipt
mined_receipt = record { status = 1; gas_used = 21000; gas_price = 3; block_number = 90 }

-- A node on which nothing is mined before the timeout, and one on which the second try is mined.
abbrev slow_call : Call ℕ
slow_call = record {
  static_call = λ value. answer tt;
  gas_price = answer (some 2);
  estimate_gas = λ value. answer 21000;
  send = λ t s. (ok (codes "0xhash"), suc s);
  wait_or_timeout = λ hash n ms s. (err timeout_error, s);
  sleep = λ ms s. s;
}

abbrev pub late_call : Call ℕ
late_call = record slow_call {
  wait_or_timeout = λ hash n ms s. elim (s == 1) [
    | true ↦ (err timeout_error, s)
    | false ↦ (ok mined_receipt, s)
  ];
}

abbrev pub builder_options : TxBuilderOptions ℕ
builder_options = record {
  max_retries = 3;
  base_delay_ms = 1000;
  max_delay_ms = 30000;
  gas_price_multiplied = λ x. x;
  gas_limit_multiplied = λ x. x;
  confirmations = 1;
  confirmation_timeout_ms = 120000;
  simulate = true;
  on_status_change = λ status s. s;
}

abbrev pub empty_wallet : Wallet ℕ
empty_wallet = record { env = 0; submitted = [] }

execute-Run_example :
    Run late_call builder_options 5 4
      (execute late_call builder_options 5 empty_wallet).0
      []
      (execute late_call builder_options 5 empty_wallet).1.submitted
execute-Run_example = execute-Run late_call builder_options 5 empty_wallet

slow_Stalls : Stalls slow_call builder_options 5
slow_Stalls = record {
  simulated = λ s. refl;
  priced = λ s. (some 2, refl);
  estimated = λ s. (21000, refl);
  accepted = λ t s. (codes "0xhash", refl);
  late = λ hash s. refl;
}

execute_resends_example :
    ((execute slow_call builder_options 5 empty_wallet).0
      ≡ failed_with (some (message_of timeout_error)))
    × (length (execute slow_call builder_options 5 empty_wallet).1.submitted ≡ 0 + (3 + 1))
execute_resends_example = execute_resends slow_call builder_options 5 slow_Stalls empty_wallet

abbrev sample_provider : Provider ℕ
sample_provider = record {
  get_transaction_receipt = λ hash. answer (some mined_receipt);
  get_block_number = answer 95;
  get_transaction = λ hash. answer true;
  now = λ s. s;
}

abbrev pending_tx : TrackedTransaction
pending_tx = record {
  hash = codes "0xa";
  status = TxStatus.pending;
  submitted_at = 0;
  confirmed_at = none;
  block_number = none;
  confirmations = pos 0;
  gas_used = none;
  effective_gas_price = none;
  error = none;
}

abbrev confirmed_tx : TrackedTransaction
confirmed_tx = record pending_tx {
  hash = codes "0xb";
  status = TxStatus.confirmed;
  confirmations = pos 1;
}

abbrev tracker : TransactionTracker ℕ
tracker = record {
  env = 1000;
  transactions = pending_tx ∷ confirmed_tx ∷ [];
  events = [];
  is_polling = true;
}

tracker-IsTracking : IsTracking tracker.transactions
tracker-IsTracking = ((λ h. refl), (refl, tt), ((λ h. ground arith), tt, tt))

poll_transactions-Polled_example :
    Polled sample_provider tracker (poll_transactions sample_provider tracker)
poll_transactions-Polled_example =
    poll_transactions-Polled sample_provider tracker tracker-IsTracking

abbrev sample_node : Node ℕ
sample_node = record {
  get_transaction = λ hash. answer (
      some (record {
        to = some (codes "0xshop");
        data_ = codes "0x01";
        value = 9;
        nonce = 4;
        gas_limit = 30000;
        gas_price = some 10;
      }));
  get_transaction_receipt = λ hash. answer none;
  gas_price = answer (some 8);
  send_transaction = λ t s. (ok (codes "0xnew"), suc s);
  address = codes "0xself";
  multiplied = λ x. x + x;
}

abbrev outbox : Outbox ℕ
outbox = record { env = 0; requests = [] }
