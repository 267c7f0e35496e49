-- ===== src/Tests/Fixture.antt =====
-- Contracts that answer every call, on a clock of milliseconds that each transaction moves on.
use set.Prelude.{ℕ, ◌+◌, ◌==◌, ◌++◌, true, false, none, some, [], ◌∷◌, length}
use set.Prelude.Int.{pos}
use set.Prelude.Text.{Text, codes}
use set.Prelude.Number.{Number}
use set.Effects.{ok, Action}
use set.Retry.{Runtime}
use set.Math.{ray}
use set.Validation.{Ethers, drop_two}
use set.Gas.{Multiplier}
use set.Agent.{
  Addresses, AgentPolicy, InvoiceTerms, EscrowInfo, EscrowStatus, SettlementPreview, SettlementMode,
  SystemStatus, FulfillmentType, DisputeResolution, DisputeReason, PaymentRequest,
}
use set.Agent.{Contracts, World}

abbrev pub answer : {A : Type 0} → A → Action ℕ A
answer a s = (ok a, s)

abbrev pub agent_addr : Text
agent_addr = codes "0x1111111111111111111111111111111111111111"

abbrev pub merchant_addr : Text
merchant_addr = codes "0x2222222222222222222222222222222222222222"

abbrev pub bytes : Text
bytes = codes "0x3333333333333333333333333333333333333333333333333333333333333333"

abbrev pub sample_ethers : Ethers
sample_ethers = record {
  is_address = λ t. length t == 42;
  get_address = λ t. t;
  zero_pad_value = λ t n. codes "0x000000000000000000000000" ++ drop_two t;
}

abbrev pub sample_runtime : Runtime ℕ
sample_runtime = record { clock = λ s. s; sleep = λ d s. s + d; random = λ s. (0, s) }

abbrev sample_addresses : Addresses
sample_addresses = record {
  vault = codes "vault";
  gateway = codes "gateway";
  nav_controller = codes "nav";
  escrow = codes "escrow";
  claim_queue = codes "queue";
  policy_module = codes "policy";
  grounding_registry = codes "registry";
  paymaster = codes "paymaster";
  bridge = codes "bridge";
  status_lens = codes "lens";
  circuit_breaker = codes "breaker";
  settlement_asset = codes "asset";
}

abbrev pub sample_system : SystemStatus
sample_system = record {
  nav_fresh = true;
  mint_deposit_allowed = true;
  request_redeem_allowed = true;
  bridging_allowed = true;
  bridge_mint_allowed = true;
  escrow_ops_paused = false;
  nav_ray = ray;
}

abbrev pub sample_policy : AgentPolicy
sample_policy = record {
  per_tx_limit_assets = 100;
  daily_limit_assets = 500;
  spent_today_assets = 20;
  day_start = 0;
  min_assets_floor = 100;
  committed_assets = 0;
  session_expiry = 0;
  enforce_merchant_allowlist = true;
  exists = true;
}

abbrev sample_escrow : EscrowInfo
sample_escrow = record {
  id = 0;
  buyer = agent_addr;
  merchant = merchant_addr;
  refund_recipient = agent_addr;
  shares_held = 50;
  principal_assets_snapshot = 50;
  committed_assets = 50;
  release_after = 300;
  buyer_bps = 0;
  status = EscrowStatus.funded;
  requires_fulfillment = true;
  fulfillment_type = FulfillmentType.digital;
  disputed = true;
  dispute_reason = DisputeReason.quality;
  fulfilled_at = 0;
  fulfillment_evidence = [];
  resolution = DisputeResolution.none;
  resolved_at = 0;
  resolution_evidence = [];
  challenge_window = 0;
  arbiter_deadline = 10;
  timeout_resolution = DisputeResolution.refund;
  disputed_at = 1;
  settlement_mode = SettlementMode.none;
  settled_at = 0;
}

abbrev pub sample_preview : SettlementPreview
sample_preview = record {
  status = EscrowStatus.funded;
  release_after_passed = false;
  fulfillment_submitted = false;
  fulfillment_complete = false;
  dispute_active = true;
  dispute_resolved = false;
  dispute_timed_out = true;
  requires_arbiter_resolution = true;
  can_buyer_release = true;
  can_merchant_release = false;
  can_arbiter_release = false;
  can_buyer_refund = false;
  can_arbiter_refund = false;
  can_arbiter_resolve = true;
  buyer_release_mode = SettlementMode.buyer_release;
  merchant_release_mode = SettlementMode.none;
  arbiter_release_mode = SettlementMode.none;
  buyer_refund_mode = SettlementMode.none;
  arbiter_refund_mode = SettlementMode.none;
  required_milestones = 3;
  completed_milestones = 1;
  next_milestone_number = 2;
  disputed_milestone = 0;
  challenge_window_ends_at = 0;
  dispute_window_ends_at = 11;
}

abbrev pub sample_escrow_of : ℕ → EscrowInfo
sample_escrow_of id = record sample_escrow { id = id }

abbrev pub sample_terms : InvoiceTerms
sample_terms = record {
  assets_due = pos 50;
  expiry = 4600;
  release_after = 1300;
  max_nav_age = 172800;
  max_shares_in = pos 60;
  requires_fulfillment = false;
  fulfillment_type = FulfillmentType.none;
  required_milestones = 0;
  challenge_window = 0;
  arbiter_deadline = 10;
  dispute_timeout_resolution = DisputeResolution.refund;
}

abbrev pub sample_request : PaymentRequest
sample_request = record {
  request_id = codes "pr_1";
  payee = merchant_addr;
  amount = pos 50;
  terms = sample_terms;
  buyer_bps = Number.int (pos 0);
  expires_at = 4600;
}

abbrev pub sample : Contracts ℕ
sample = record {
  runtime = sample_runtime;
  ethers = sample_ethers;
  addresses = sample_addresses;
  signer_address = agent_addr;
  block_confirmations = 1;
  gas_buffer = Multiplier.scaled 12000;
  topic_hash = λ e. codes "topic";
  parse_log = λ e l. some (record { number = λ name. some 7; text = λ name. some bytes });
  get_status = answer sample_system;
  try_current_nav_ray = answer (ray, true);
  nav0_ray = answer ray;
  t0 = answer 900;
  rate_per_second_ray = answer (pos 1);
  max_staleness = answer 3600;
  convert_to_assets = λ shares. answer 50;
  convert_to_shares = λ assets. answer 50;
  convert_to_shares_invoice_or_withdraw = λ assets. answer 50;
  preview_mint = λ shares. answer 50;
  balance_of = λ token owner. answer 1000;
  allowance = λ token owner spender. answer 10;
  gas_tank_shares = λ a. answer 5;
  policies = λ a. answer sample_policy;
  merchant_allowlist = λ a m. answer true;
  is_grounded_now = λ a. answer false;
  current_assets = λ a. answer (1000, 100, ray);
  preview_release_split = λ id. answer (record {
    total_shares = 50;
    principal_shares = 50;
    gross_yield_shares = 0;
    reserve_shares = 0;
    fee_shares = 0;
    buyer_yield_shares = 0;
    merchant_yield_shares = 0;
  });
  preview_settlement = λ id. answer sample_preview;
  escrows = λ id. answer sample_escrow;
  escrow_completed_milestones = λ id. answer 1;
  escrow_required_milestones = λ id. answer 3;
  bridge_paused = answer false;
  trusted_peer = λ chain. answer bytes;
  can_bridge = λ chain shares. answer true;
  outstanding_shares = answer 0;
  max_outstanding_shares = answer 10000;
  remaining_mint_capacity_shares = answer 10000;
  estimate_deposit = λ assets receiver min_shares_out. answer 100000;
  get_fee_data =
      answer
        (record { gas_price = some 2; max_fee_per_gas = some 3; max_priority_fee_per_gas = none });
  send = λ tx s. (ok (codes "0xhash"), s + 1000);
  wait = λ hash n s.
      (ok (record { hash = hash; logs = record { topic = codes "topic"; body = [] } ∷ [] }), s);
}

-- At 1000 seconds, before any transaction.
abbrev pub start : World ℕ
start = record { env = 1000000; sent = [] }
