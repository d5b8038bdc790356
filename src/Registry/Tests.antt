-- ===== src/Registry/Tests.antt =====
-- The list of the models that two enabled subnets serve, one of them without a metagraph.
use tao_gateway.Base.{ℕ, ◌≡◌, refl, String, none, some, [], ◌∷◌, All, map}
use tao_gateway.Base.Int.{pos}
use tao_gateway.Routing.Metagraph.{Subnets, get_metagraph}
use tao_gateway.Registry.{
  empty_registry, add_models, register, list_all, AdapterClass, adapter_factory, get_model_names,
  Settings, class_config, Registered, register_enabled,
}
use tao_gateway.Registry.Models.{
  ModelStatus, available, unavailable, SubnetModelInfo, model_status, list_models,
}
use tao_gateway.Registry.Models.Served.{IsServed, list_models-IsServed}

abbrev settings : Settings
settings = record {
  sn1_netuid = 1;
  sn19_netuid = 19;
  sn22_netuid = 22;
  sn32_netuid = 32;
  sn62_netuid = 62;
  dendrite_timeout_seconds = 30;
  sn19_timeout_seconds = 90;
  sn22_timeout_seconds = 30;
  sn32_timeout_seconds = 30;
  sn62_timeout_seconds = 30;
}

abbrev size_of : ℕ → ℕ
size_of n = n

abbrev subnets : Subnets ℕ
subnets =
    (
      22,
      record {
        netuid = 22;
        metagraph = some 256;
        last_sync_time = 900;
        last_sync_mono = pos 900;
        last_sync_error = none;
        consecutive_failures = 0;
        staleness_threshold = 300_000_000;
        sync_generation = 1;
      },
    )
    ∷ []

abbrev shown : SubnetModelInfo → String × ModelStatus
shown info = (info.id, info.status)

abbrev registered : Registered settings
registered =
    register_enabled settings (32 ∷ 22 ∷ []) (empty_registry AdapterClass (class_config settings))

models_shown :
    map shown (list_models ℕ size_of settings registered (some subnets) 7)
    ≡ (("tao-sn32", unavailable) ∷ ("tao-sn22", available) ∷ [])
unfolding list_models list_all register_enabled adapter_factory register add_models get_model_names
    model_status get_metagraph
models_shown = refl

list_models-IsServed_example :
    All (IsServed settings registered) (list_models ℕ size_of settings registered (some subnets) 7)
list_models-IsServed_example =
    list_models-IsServed ℕ size_of settings (32 ∷ 22 ∷ []) (some subnets) 7
