-- ===== src/Tests/Tokens.antt =====
-- A stablecoin client whose contracts answer, on a clock that each transaction moves on.
use set.Prelude.{ℕ, ◌+◌, ◌≡◌, refl, true, false, none, some, [], ◌∷◌}
use set.Prelude.Int.{pos}
use set.Prelude.Text.{Text, codes}
use set.Effects.{ok}
use set.Gas.{Multiplier}
use set.Validation.{validate_address}
use set.Stablecoin.Chain.{
  Tx, Event, Contracts, World, RedemptionRequest, RedemptionStatus, TokenInfo, TokenCategory,
  TrustLevel, NavReport,
}
use set.Stablecoin.Operations.{deposit, recipient_or_signer}
use set.Stablecoin.Throws.{Throws, operations-Throws}
use set.Stablecoin.Settled.{Settled, deposit-Settled}
use set.Tests.Fixture.{sample_runtime, sample_ethers, answer, agent_addr, merchant_addr}

abbrev sample_nav : NavReport
sample_nav = record {
  total_assets = 10;
  total_shares = 10;
  nav_per_share = 1;
  timestamp = 100;
  report_date = 20260101;
  proof_hash = codes "0x";
  attestor = agent_addr;
}

abbrev sample_request : ℕ → RedemptionRequest
sample_request id = record {
  id = id;
  requester = agent_addr;
  ss_usd_amount = 5;
  collateral_token = merchant_addr;
  requested_at = 1;
  processed_at = 0;
  status = RedemptionStatus.pending;
}

abbrev sample_token : Text → TokenInfo
sample_token token = record {
  token_address = token;
  name = codes "USD Coin";
  symbol = codes "USDC";
  decimals = 6;
  logo_uri = [];
  category = TokenCategory.stablecoin;
  trust_level = TrustLevel.trusted;
  is_collateral = true;
  added_at = 1;
  updated_at = 1;
}

abbrev sample_tokens : Contracts ℕ
sample_tokens = record {
  runtime = sample_runtime;
  ethers = sample_ethers;
  addresses = record {
    token_registry = codes "registry";
    nav_oracle = codes "oracle";
    ss_usd = codes "ssUSD";
    wss_usd = codes "wssUSD";
    treasury = codes "treasury";
  };
  signer_address = agent_addr;
  block_confirmations = 1;
  gas_buffer = Multiplier.scaled 12000;
  topic_hash = λ event. codes "topic";
  parse_log = λ event log. some (λ arg. some 40);
  deposits_paused = answer false;
  redemptions_paused = answer false;
  redemption_delay = answer 60;
  get_redemption_request = λ id. answer (sample_request id);
  get_user_redemptions = λ user. answer [];
  get_total_collateral_value = answer 10;
  get_collateral_ratio = answer 10000;
  is_approved_collateral = λ token. answer true;
  get_collateral_tokens = answer [];
  get_token_info = λ token. answer (sample_token token);
  balance_of = λ token owner. answer 100;
  allowance = λ token owner spender. answer 0;
  shares_of = λ owner. answer 100;
  total_supply = answer 1000;
  total_shares = answer 1000;
  get_nav_per_share = answer 1;
  get_ssdc_value = λ owner. answer 100;
  get_share_price = answer 1;
  convert_to_shares = λ amount. answer 40;
  convert_to_assets = λ amount. answer 40;
  is_nav_fresh = answer true;
  get_current_nav = answer sample_nav;
  get_nav_history = λ count. answer [];
  estimate_deposit = λ token amount to. answer 50000;
  estimate_request_redemption = λ amount collateral. answer 50000;
  get_fee_data =
      answer (record { gas_price = none; max_fee_per_gas = none; max_priority_fee_per_gas = none });
  send = λ tx s. (ok (codes "0xhash"), s + 1);
  wait = λ hash blocks s. (
    ok (
        some (record {
          hash = hash;
          status = 1;
          logs = record { topic = codes "topic"; body = [] } ∷ [];
        })),
    s + 1,
  );
}

abbrev at_start : World ℕ
at_start = record { env = 0; sent = [] }

operations-Throws_example : Throws sample_tokens at_start
operations-Throws_example = operations-Throws sample_tokens at_start

deposited : deposit sample_tokens merchant_addr (pos 40) none at_start ≡ (
  ok (record { tx_hash = codes "0xhash"; ss_usd_minted = 40 }),
  (deposit sample_tokens merchant_addr (pos 40) none at_start).1,
)
unfolding deposit validate_address set.Validation.validate_positive_amount
    set.Stablecoin.Operations.deposit_checked set.Retry.with_retry
    set.Stablecoin.Operations.check_collateral set.Stablecoin.Operations.check_balance
    set.Validation.assert_sufficient_balance set.Stablecoin.Chain.approve_if_needed
    set.Stablecoin.Operations.estimate set.Gas.estimate_gas set.Stablecoin.Chain.transact
    set.Stablecoin.Chain.event_arg
deposited = refl

deposit-Settled_example :
    (token to : Text) × (gas : ℕ) × (validate_address sample_ethers merchant_addr ≡ ok token)
    × (recipient_or_signer sample_tokens none ≡ ok to)
    × Settled sample_tokens
        (Tx.deposit token (pos 40) to gas)
        Event.deposited
        (codes "ssUSDMinted")
        (codes "0xhash")
        40
deposit-Settled_example =
    deposit-Settled sample_tokens merchant_addr (pos 40) none at_start _
      (record { tx_hash = codes "0xhash"; ss_usd_minted = 40 }) deposited
