-- ===== src/Registry.antt =====
-- gateway/subnets/registry.py and gateway/subnets/factory.py, and the loop of gateway/main.py that
-- registers the enabled subnets. `A` is the type of an adapter. The logging is left out.
pub mod Enabled
pub mod Models
mod Tests
use tao_gateway.Base.{
  ℕ, String, str, str_append, Bool, true, false, Option, none, some, List, [], ◌∷◌, map, nat_eq,
  string_eq,
}
use tao_gateway.Base.Dict.{Dict, lookup, insert}
use tao_gateway.Errors.{GatewayError, subnet_unavailable_error, Result, ok, err}
use tao_gateway.Adapter.{AdapterConfig}

abbrev pub no_adapter : String → String
no_adapter model = str_append (str_append "no adapter registered for model '" model) "'"

module _ (A : Type 0) (get_config : A → AdapterConfig) where
  pub record AdapterRegistry : Type 0 where
    pub by_netuid : Dict ℕ A
    pub by_model : Dict String A
    pub model_names : Dict ℕ (List String)

  abbrev pub empty_registry : AdapterRegistry
  empty_registry = record { by_netuid = []; by_model = []; model_names = [] }

  unfoldable pub add_models : A → List String → Dict String A → Dict String A
  add_models adapter [] by_model = by_model
  add_models adapter (name ∷ names) by_model =
      add_models adapter names (insert name adapter by_model)

  unfoldable pub register : A → List String → AdapterRegistry → AdapterRegistry
  register adapter names r =
      let netuid = (get_config adapter).netuid in
      record {
        by_netuid = insert netuid adapter r.by_netuid;
        by_model = add_models adapter names r.by_model;
        model_names = insert netuid names r.model_names;
      }

  -- The default of `SubnetUnavailableError.reason`.
  abbrev pub default_reason : String
  default_reason = "unavailable"

  unfoldable pub get : ℕ → AdapterRegistry → Result A
  get netuid r = elim (lookup netuid r.by_netuid) [
    | none ↦ err (subnet_unavailable_error (str_append "sn" (str netuid)) default_reason)
    | some adapter ↦ ok adapter
  ]

  unfoldable pub get_by_model : String → AdapterRegistry → Result A
  get_by_model model r = elim (lookup model r.by_model) [
    | none ↦ err (subnet_unavailable_error model (no_adapter model))
    | some adapter ↦ ok adapter
  ]

  pub record AdapterInfo : Type 0 where
    pub config : AdapterConfig
    pub model_names : List String
    pub adapter : A

  abbrev or_no_names : Option (List String) → List String
  or_no_names none = []
  or_no_names (some names) = names

  abbrev pub info_of : AdapterRegistry → ℕ × A → AdapterInfo
  info_of r (netuid, adapter) = record {
    config = get_config adapter;
    model_names = or_no_names (lookup netuid r.model_names);
    adapter = adapter;
  }

  unfoldable pub list_all : AdapterRegistry → List AdapterInfo
  list_all r = map (info_of r) r.by_netuid

  abbrev key_of : ℕ × A → ℕ
  key_of (netuid, adapter) = netuid

  unfoldable pub get_all_netuids : AdapterRegistry → List ℕ
  get_all_netuids r = map key_of r.by_netuid

-- The adapters, one constructor to a class, and `_ADAPTER_MAP`.
pub data AdapterClass : Type 0 where
  sn1_text sn19_image sn22_search sn32_detection sn62_code : AdapterClass

abbrev pub adapter_map : Dict ℕ (AdapterClass × List String)
adapter_map =
    (1, (sn1_text, "tao-sn1" ∷ []))
    ∷ (19, (sn19_image, "tao-sn19" ∷ []))
    ∷ (22, (sn22_search, "tao-sn22" ∷ []))
    ∷ (32, (sn32_detection, "tao-sn32" ∷ []))
    ∷ (62, (sn62_code, "tao-sn62" ∷ []))
    ∷ []

abbrev class_of : Option (AdapterClass × List String) → Option AdapterClass
class_of none = none
class_of (some (c, names)) = some c

abbrev names_of : Option (AdapterClass × List String) → List String
names_of none = []
names_of (some (c, names)) = names

unfoldable pub adapter_factory : ℕ → Option AdapterClass
adapter_factory netuid = class_of (lookup netuid adapter_map)

unfoldable pub get_model_names : ℕ → List String
get_model_names netuid = names_of (lookup netuid adapter_map)

-- What the adapters read of the settings.
pub record Settings : Type 0 where
  pub sn1_netuid : ℕ
  pub sn19_netuid : ℕ
  pub sn22_netuid : ℕ
  pub sn32_netuid : ℕ
  pub sn62_netuid : ℕ
  pub dendrite_timeout_seconds : ℕ
  pub sn19_timeout_seconds : ℕ
  pub sn22_timeout_seconds : ℕ
  pub sn32_timeout_seconds : ℕ
  pub sn62_timeout_seconds : ℕ

abbrev pub configured : ℕ → String → ℕ → AdapterConfig
configured netuid name timeout = record {
  netuid = netuid;
  subnet_name = name;
  timeout_seconds = timeout;
}

-- `get_config` of the classes.
abbrev pub class_config : Settings → AdapterClass → AdapterConfig
class_config s sn1_text = configured s.sn1_netuid "sn1" s.dendrite_timeout_seconds
class_config s sn19_image = configured s.sn19_netuid "sn19" s.sn19_timeout_seconds
class_config s sn22_search = configured s.sn22_netuid "sn22-search" s.sn22_timeout_seconds
class_config s sn32_detection = configured s.sn32_netuid "sn32-detect" s.sn32_timeout_seconds
class_config s sn62_code = configured s.sn62_netuid "sn62" s.sn62_timeout_seconds

module _ (settings : Settings) where
  abbrev pub Registered : Type 0
  Registered = AdapterRegistry AdapterClass (class_config settings)

  -- One round of the loop.
  abbrev pub register_known : ℕ → Option AdapterClass → Registered → Registered
  register_known netuid none r = r
  register_known netuid (some adapter) r =
      register AdapterClass (class_config settings) adapter (get_model_names netuid) r

  unfoldable pub register_enabled : List ℕ → Registered → Registered
  register_enabled [] r = r
  register_enabled (netuid ∷ enabled) r =
      register_enabled enabled (register_known netuid (adapter_factory netuid) r)
