-- ===== src/Config.antt =====
-- sdk/src/config.ts: the global configuration, and the known networks. The gas buffer is in tenths, as all
-- presets are. A partial configuration has a field or leaves it out; a field that is `undefined` on
-- purpose is not in the type. An index into a plain object also finds the names that every object
-- inherits, such as `constructor`: these names are the parameter `inherited`.
pub mod Merging
pub mod Networks
use set.Prelude.{
  ℕ, Bool, true, false, ◌||◌, Option, none, some, List, [], ◌∷◌, map, ◌==◌, if◌then◌else◌,
}
use set.Prelude.Text.{Text, codes, text_eq}

pub record SdkConfig : Type 0 where
  pub gas_buffer : ℕ
  pub transaction_timeout : ℕ
  pub block_confirmations : ℕ
  pub rpc_timeout : ℕ
  pub max_retries : ℕ
  pub initial_retry_delay : ℕ
  pub max_retry_delay : ℕ
  pub mev_timeout : ℕ
  pub mev_poll_interval : ℕ
  pub ss_usd_decimals : ℕ
  pub collateral_decimals : ℕ
  pub debug : Bool

-- `Partial<SDKConfig>`
pub record Overrides : Type 0 where
  pub gas_buffer : Option ℕ
  pub transaction_timeout : Option ℕ
  pub block_confirmations : Option ℕ
  pub rpc_timeout : Option ℕ
  pub max_retries : Option ℕ
  pub initial_retry_delay : Option ℕ
  pub max_retry_delay : Option ℕ
  pub mev_timeout : Option ℕ
  pub mev_poll_interval : Option ℕ
  pub ss_usd_decimals : Option ℕ
  pub collateral_decimals : Option ℕ
  pub debug : Option Bool

abbrev pub default_config : SdkConfig
default_config = record {
  gas_buffer = 12;
  transaction_timeout = 120000;
  block_confirmations = 1;
  rpc_timeout = 30000;
  max_retries = 3;
  initial_retry_delay = 1000;
  max_retry_delay = 30000;
  mev_timeout = 180000;
  mev_poll_interval = 2000;
  ss_usd_decimals = 18;
  collateral_decimals = 6;
  debug = false;
}

abbrev pub over : {A : Type 0} → A → Option A → A
over a none = a
over a (some b) = b

-- `{ ...config, ...overrides }`
unfoldable pub merge : SdkConfig → Overrides → SdkConfig
merge c o = record {
  gas_buffer = over c.gas_buffer o.gas_buffer;
  transaction_timeout = over c.transaction_timeout o.transaction_timeout;
  block_confirmations = over c.block_confirmations o.block_confirmations;
  rpc_timeout = over c.rpc_timeout o.rpc_timeout;
  max_retries = over c.max_retries o.max_retries;
  initial_retry_delay = over c.initial_retry_delay o.initial_retry_delay;
  max_retry_delay = over c.max_retry_delay o.max_retry_delay;
  mev_timeout = over c.mev_timeout o.mev_timeout;
  mev_poll_interval = over c.mev_poll_interval o.mev_poll_interval;
  ss_usd_decimals = over c.ss_usd_decimals o.ss_usd_decimals;
  collateral_decimals = over c.collateral_decimals o.collateral_decimals;
  debug = over c.debug o.debug;
}

-- The variable `globalConfig` is the state of these three; `getConfig` returns a copy.
unfoldable pub get_config : SdkConfig → SdkConfig × SdkConfig
get_config global = (global, global)

unfoldable pub set_config : Overrides → SdkConfig → SdkConfig
unfolding merge
set_config overrides global = merge global overrides

unfoldable pub reset_config : SdkConfig → SdkConfig
reset_config global = default_config

unfoldable pub create_config : Overrides → SdkConfig
unfolding merge
create_config overrides = merge default_config overrides

abbrev pub no_overrides : Overrides
no_overrides = record {
  gas_buffer = none;
  transaction_timeout = none;
  block_confirmations = none;
  rpc_timeout = none;
  max_retries = none;
  initial_retry_delay = none;
  max_retry_delay = none;
  mev_timeout = none;
  mev_poll_interval = none;
  ss_usd_decimals = none;
  collateral_decimals = none;
  debug = none;
}

-- `NETWORK_PRESETS`
abbrev pub local_preset : SdkConfig
local_preset = record default_config {
  gas_buffer = 11;
  transaction_timeout = 30000;
  max_retries = 1;
  debug = true;
}

abbrev pub sepolia_preset : SdkConfig
sepolia_preset = record default_config { gas_buffer = 13; transaction_timeout = 180000 }

abbrev pub mainnet_preset : SdkConfig
mainnet_preset = record default_config {
  transaction_timeout = 300000;
  max_retries = 5;
  block_confirmations = 2;
}

pub record NetworkConfig : Type 0 where
  pub chain_id : ℕ
  pub name : Text
  pub rpc_url : Text
  pub explorer_url : Text
  pub native_currency : Text

-- `NETWORKS`, in the order of its keys.
abbrev pub networks : List (Text × NetworkConfig)
networks =
    (
      codes "local",
      record {
        chain_id = 84532001;
        name = codes "Set Chain Local";
        rpc_url = codes "http://localhost:8545";
        explorer_url = codes "http://localhost:4000";
        native_currency = codes "ETH";
      },
    )
    ∷ (
      codes "sepolia",
      record {
        chain_id = 84532001;
        name = codes "Set Chain Sepolia";
        rpc_url = codes "https://rpc.sepolia.setchain.io";
        explorer_url = codes "https://explorer.sepolia.setchain.io";
        native_currency = codes "ETH";
      },
    )
    ∷ (
      codes "mainnet",
      record {
        chain_id = 84532000;
        name = codes "Set Chain";
        rpc_url = codes "https://rpc.setchain.io";
        explorer_url = codes "https://explorer.setchain.io";
        native_currency = codes "ETH";
      },
    )
    ∷ []

-- The two required addresses; the optional ones are not set for any network.
pub record ContractAddresses : Type 0 where
  pub set_registry : Text
  pub set_paymaster : Text

abbrev pub zero_address : Text
zero_address = codes "0x0000000000000000000000000000000000000000"

abbrev pub contract_addresses : List (Text × ContractAddresses)
contract_addresses =
    (codes "local", record { set_registry = zero_address; set_paymaster = zero_address }) ∷ []

-- What `object[key]` is: not there, a value of its own, or a function that every object inherits.
pub data Indexed (A : Type 0) : Type 0 where
  undefined : Indexed A
  own : A → Indexed A
  inherited_function : Indexed A

module _ (inherited : Text → Bool) where
  unfoldable pub index : {A : Type 0} → Text → List (Text × A) → Indexed A
  index key [] = if inherited key then inherited_function else undefined
  index key ((k, a) ∷ m) = if text_eq k key then own a else index key m

-- `string | number`
pub data Network : Type 0 where
  named : Text → Network
  chain : ℕ → Network

-- `Object.entries(NETWORKS).filter(…).map(…)`
unfoldable pub names_with : ℕ → List (Text × NetworkConfig) → List Text
names_with chain_id [] = []
names_with chain_id ((name, cfg) ∷ m) =
    let rest = names_with chain_id m in if cfg.chain_id == chain_id then name ∷ rest else rest

unfoldable pub get_network_names_by_chain_id : ℕ → List Text
unfolding names_with
get_network_names_by_chain_id chain_id = names_with chain_id networks

-- `matches.length === 1 ? matches[0] : undefined`
abbrev pub only_one : List Text → Option Text
only_one (name ∷ []) = some name
only_one _ = none

-- `NETWORKS[network] ? network : undefined`
abbrev pub if_found : {A : Type 0} → Text → Indexed A → Option Text
if_found name undefined = none
if_found name (own a) = some name
if_found name inherited_function = some name

module _ (inherited : Text → Bool) where
  unfoldable pub resolve_network_name : Network → Option Text
  unfolding index get_network_names_by_chain_id
  resolve_network_name (named name) = if_found name (index inherited name networks)
  resolve_network_name (chain id) = only_one (get_network_names_by_chain_id id)

  unfoldable pub get_contract_addresses : Network → Indexed ContractAddresses
  unfolding resolve_network_name index
  get_contract_addresses network = elim (resolve_network_name network) [
    | none ↦ undefined
    | some [] ↦ undefined
    | some (c ∷ s) ↦ index inherited (c ∷ s) contract_addresses
  ]
