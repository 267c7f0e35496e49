-- ===== src/Transactions/Cache/Wrapper.antt =====
-- `CachedContractWrapper`: a cache with fixed keys for the status reports of four kinds of contracts. What
-- fetches a report from the chain is a parameter.
use set.Prelude.{ℕ, ◌≡◌, refl, ◌∙◌, Bool, true, false, none, List, ◌++◌, if◌then◌else◌}
use set.Prelude.Text.{Text, codes, starts_with}
use set.Effects.{Action}
use set.Transactions.Cache.Entries.{put}
use set.Transactions.Cache.{CacheState, get_or_fetch, invalidate_by_prefix}
use set.Transactions.Cache.View.{seen, fresh_value-delete_prefix}

pub data ContractType : Type 0 where
  registry paymaster wss_usd threshold : ContractType

abbrev pub contract_type_text : ContractType → Text
contract_type_text registry = codes "registry"
contract_type_text paymaster = codes "paymaster"
contract_type_text wss_usd = codes "wssUSD"
contract_type_text threshold = codes "threshold"

module _ {E V : Type 0} (clock : E → ℕ) (cache_ttl_ms : ℕ) (fetch : Action (CacheState E V) V) where
  unfoldable pub get_registry_status : Action (CacheState E V) V
  get_registry_status = get_or_fetch clock cache_ttl_ms (codes "registry:stats") fetch none

  unfoldable pub get_extended_registry_status : Action (CacheState E V) V
  get_extended_registry_status =
      get_or_fetch clock cache_ttl_ms (codes "registry:extended") fetch none

  unfoldable pub get_paymaster_status : Action (CacheState E V) V
  get_paymaster_status = get_or_fetch clock cache_ttl_ms (codes "paymaster:status") fetch none

  unfoldable pub get_wss_usd_status : Action (CacheState E V) V
  get_wss_usd_status = get_or_fetch clock cache_ttl_ms (codes "wssUSD:status") fetch none

  unfoldable pub get_threshold_registry_status : Action (CacheState E V) V
  get_threshold_registry_status =
      get_or_fetch clock cache_ttl_ms (codes "threshold:status") fetch none

-- The contracts are kept by name, and no method reads them.
unfoldable pub register_contract : {C : Type 0} → Text → C → List (Text × C) → List (Text × C)
register_contract name contract contracts = put name contract contracts

module _ {E V : Type 0} where
  unfoldable pub invalidate_contract : ContractType → CacheState E V → CacheState E V
  unfolding invalidate_by_prefix
  invalidate_contract contract_type =
      invalidate_by_prefix (contract_type_text contract_type ++ codes ":")

-- The reports, their keys, and the kinds of contracts that they are about.
pub data Report : Type 0 where
  registry_stats registry_extended paymaster_status wss_usd_status threshold_status : Report

abbrev pub report_key : Report → Text
report_key registry_stats = codes "registry:stats"
report_key registry_extended = codes "registry:extended"
report_key paymaster_status = codes "paymaster:status"
report_key wss_usd_status = codes "wssUSD:status"
report_key threshold_status = codes "threshold:status"

abbrev pub is_about : Report → ContractType → Bool
is_about registry_stats registry = true
is_about registry_extended registry = true
is_about paymaster_status paymaster = true
is_about wss_usd_status wss_usd = true
is_about threshold_status threshold = true
is_about _ _ = false

prefix_of_report :
    (r : Report) (c : ContractType)
    → starts_with (report_key r) (contract_type_text c ++ codes ":") ≡ is_about r c
unfolding starts_with
prefix_of_report registry_stats registry = refl
prefix_of_report registry_stats paymaster = refl
prefix_of_report registry_stats wss_usd = refl
prefix_of_report registry_stats threshold = refl
prefix_of_report registry_extended registry = refl
prefix_of_report registry_extended paymaster = refl
prefix_of_report registry_extended wss_usd = refl
prefix_of_report registry_extended threshold = refl
prefix_of_report paymaster_status registry = refl
prefix_of_report paymaster_status paymaster = refl
prefix_of_report paymaster_status wss_usd = refl
prefix_of_report paymaster_status threshold = refl
prefix_of_report wss_usd_status registry = refl
prefix_of_report wss_usd_status paymaster = refl
prefix_of_report wss_usd_status wss_usd = refl
prefix_of_report wss_usd_status threshold = refl
prefix_of_report threshold_status registry = refl
prefix_of_report threshold_status paymaster = refl
prefix_of_report threshold_status wss_usd = refl
prefix_of_report threshold_status threshold = refl

-- `invalidateContract` hides the reports about contracts of the kind, and leaves the other reports to be
-- seen.
pub invalidate_contract_lem :
    {E V : Type 0} (c : ContractType) (r : Report) (t : ℕ) (w : CacheState E V)
    → seen (invalidate_contract c w) t (report_key r)
      ≡ (if is_about r c then none else seen w t (report_key r))
unfolding invalidate_contract
invalidate_contract_lem c r t w =
    fresh_value-delete_prefix (contract_type_text c ++ codes ":") (report_key r) t w.entries
    ∙ rw (prefix_of_report r c) refl
