-- ===== src/Tests/Sequences.antt =====
-- A deposit by two transactions, on a node that answers.
use set.Prelude.{ℕ, ◌≡◌, none, []}
use set.Prelude.Text.{Text, codes}
use set.Transactions.Flows.{Method, Contracts, World, execute_deposit_flow}
use set.Transactions.Flows.Trace.{FlowTrace, execute_deposit_flow_trace}
use set.Tests.Fixture.{answer}
use set.Tests.Sending.{late_call, builder_options, empty_wallet}

abbrev sample_flow : Contracts ℕ ℕ
sample_flow = record {
  call = λ method. late_call;
  get_address = λ contract. answer contract;
  allowance = λ token spender. answer 3;
  wallet_address = codes "wallet";
  logs = λ receipt. [];
  parse_log = λ log. none;
}

abbrev at_start : World ℕ
at_start = record { wallet = empty_wallet; executed = [] }

execute_deposit_flow_trace_example :
    FlowTrace sample_flow builder_options
      (codes "token")
      5
      (λ m. (token : Text) × (m ≡ Method.deposit token 5 (codes "wallet")))
      at_start
      (execute_deposit_flow sample_flow builder_options (codes "vault") (codes "token") 5 at_start)
execute_deposit_flow_trace_example =
    execute_deposit_flow_trace sample_flow builder_options (codes "vault") (codes "token") 5
      at_start
