-- ===== src/Config/Merging.antt =====
-- Overriding the configuration.
use set.Prelude.{◌≡◌, refl, Option, none, some}
use set.Config.{
  SdkConfig, Overrides, over, merge, get_config, set_config, reset_config, create_config,
}

abbrev pub later : {A : Type 0} → Option A → Option A → Option A
later a none = a
later a (some b) = some b

over-over : {A : Type 0} (c : A) (o p : Option A) → over (over c o) p ≡ over c (later o p)
over-over c o none = refl
over-over c o (some b) = refl

-- The overrides of both, of which the later ones win.
pub both : Overrides → Overrides → Overrides
both o p = record {
  gas_buffer = later o.gas_buffer p.gas_buffer;
  transaction_timeout = later o.transaction_timeout p.transaction_timeout;
  block_confirmations = later o.block_confirmations p.block_confirmations;
  rpc_timeout = later o.rpc_timeout p.rpc_timeout;
  max_retries = later o.max_retries p.max_retries;
  initial_retry_delay = later o.initial_retry_delay p.initial_retry_delay;
  max_retry_delay = later o.max_retry_delay p.max_retry_delay;
  mev_timeout = later o.mev_timeout p.mev_timeout;
  mev_poll_interval = later o.mev_poll_interval p.mev_poll_interval;
  ss_usd_decimals = later o.ss_usd_decimals p.ss_usd_decimals;
  collateral_decimals = later o.collateral_decimals p.collateral_decimals;
  debug = later o.debug p.debug;
}

-- Two calls of `setConfig` are one with the overrides of both, of which the later ones win; after
-- `resetConfig` the same overrides give what `createConfig` gives; and what is got is what was set.
pub set_config_laws :
    (o p : Overrides) (global : SdkConfig)
    → (set_config p (set_config o global) ≡ set_config (both o p) global)
      × (set_config o (reset_config global) ≡ create_config o)
      × ((get_config (set_config o global)).0 ≡ set_config o global)
unfolding set_config merge both reset_config create_config get_config
set_config_laws o p c = (
  λ i. record {
    gas_buffer = over-over c.gas_buffer o.gas_buffer p.gas_buffer i;
    transaction_timeout =
        over-over c.transaction_timeout o.transaction_timeout p.transaction_timeout i;
    block_confirmations =
        over-over c.block_confirmations o.block_confirmations p.block_confirmations i;
    rpc_timeout = over-over c.rpc_timeout o.rpc_timeout p.rpc_timeout i;
    max_retries = over-over c.max_retries o.max_retries p.max_retries i;
    initial_retry_delay =
        over-over c.initial_retry_delay o.initial_retry_delay p.initial_retry_delay i;
    max_retry_delay = over-over c.max_retry_delay o.max_retry_delay p.max_retry_delay i;
    mev_timeout = over-over c.mev_timeout o.mev_timeout p.mev_timeout i;
    mev_poll_interval = over-over c.mev_poll_interval o.mev_poll_interval p.mev_poll_interval i;
    ss_usd_decimals = over-over c.ss_usd_decimals o.ss_usd_decimals p.ss_usd_decimals i;
    collateral_decimals =
        over-over c.collateral_decimals o.collateral_decimals p.collateral_decimals i;
    debug = over-over c.debug o.debug p.debug i;
  },
  refl,
  refl,
)
