-- ===== src/Endpoints/Tests.antt =====
-- Requests through an adapter, at concrete answers of the network.
use tao_gateway.Base.{
  ℕ, ◌≡◌, refl, ◌⊎◌, inl, String, Bool, true, false, Option, none, some, List, [], ◌∷◌,
}
use tao_gateway.Base.Int.{pos}
use tao_gateway.RateLimit.Limits.{RateLimitResult}
use tao_gateway.Routing.Float.Fixed.{fixed}
use tao_gateway.Routing.Scorer.{Config, States, record_observation}
use tao_gateway.Routing.Selector.{AxonInfo, selected}
use tao_gateway.Adapter.{AdapterConfig, converted, Reply, Meets, responses, timed_out, failure, Sse}
use tao_gateway.Registry.{
  AdapterClass, Settings, Registered, class_config, empty_registry, register_enabled,
}
use tao_gateway.Endpoints.{Answer, Handling, Network, execute_subnet_request, subnet_endpoint}
use tao_gateway.Endpoints.Accounting.{IsAccounted, execute_subnet_request-IsAccounted}
use tao_gateway.Endpoints.Admission.{IsRefused, IsAdmitted, subnet_endpoint_admits}
use tao_gateway.Usage.{UsageEntry}
use tao_gateway.RateLimit.Store.Concrete.{entries}
use tao_gateway.RateLimit.Check.{answered, Env, World}
use tao_gateway.Endpoints.Stream.{started}
use tao_gateway.Endpoints.Stream.Charge.{IsOneCharge, stream_of, handle_stream_unanswered}

abbrev scorer_config : Config fixed
scorer_config = record { ema_alpha = 300_000_000; subnet_timeouts = [] }

abbrev axon_uid : AxonInfo → ℕ
axon_uid axon = 0

abbrev config : AdapterConfig
config = record { netuid = 22; subnet_name = "sn22-search"; timeout_seconds = 30 }

abbrev axon : AxonInfo
axon = record { ip = "8.8.8.8"; port = 8091; hotkey = "5F3sa2TJAWMqDhXG" }

abbrev meets : Meets
meets = record { start_time = 1000; end_time = 2_501_500; timestamp = 9; unsampled = false }

abbrev handling : Handling
handling = record {
  api_key = record { key_id = "k1"; org_id = "o1"; debug_mode = false };
  endpoint = "/v1/search";
  request_body_json = "{}";
}

abbrev uuid : String → ℕ
uuid s = 7

abbrev valid : String → Bool
valid body = true

abbrev dumps : String → Option String
dumps body = some body

abbrev good_reply : Reply String
good_reply = record { is_timeout = false; is_success = true; content = converted "found" }

abbrev rate_result : RateLimitResult
rate_result = record {
  allowed = true;
  minute_count = 1;
  minute_remaining = pos 29;
  minute_reset = 1020;
  day_count = 1;
  day_remaining = pos 299;
  day_reset = 4000;
  month_count = 1;
  month_remaining = pos 2999;
  month_reset = 91000;
  limit = 30;
  remaining = pos 29;
  reset = 1020;
  retry_after = 0;
}

execute_subnet_request-IsAccounted_example :
    IsAccounted fixed scorer_config axon_uid config uuid String valid dumps handling axon meets [] (
      execute_subnet_request uuid valid dumps fixed scorer_config axon_uid config handling
        rate_result
        (record {
          select_miner = λ netuid. selected axon;
          built = true;
          meets = meets;
          forward = responses (good_reply ∷ []);
        })
        (some []))
execute_subnet_request-IsAccounted_example =
    execute_subnet_request-IsAccounted fixed scorer_config axon_uid config uuid String valid dumps
      handling axon meets (responses (good_reply ∷ [])) [] rate_result

abbrev settings : Settings
settings = record {
  sn1_netuid = 1;
  sn19_netuid = 19;
  sn22_netuid = 22;
  sn32_netuid = 32;
  sn62_netuid = 62;
  dendrite_timeout_seconds = 30;
  sn19_timeout_seconds = 90;
  sn22_timeout_seconds = 30;
  sn32_timeout_seconds = 30;
  sn62_timeout_seconds = 30;
}

abbrev registry : Registered settings
registry =
    register_enabled settings (32 ∷ 22 ∷ []) (empty_registry AdapterClass (class_config settings))

abbrev network : Network uuid valid dumps fixed scorer_config axon_uid
network = record {
  select_miner = λ netuid. selected axon;
  built = true;
  meets = meets;
  forward = responses (good_reply ∷ []);
}

abbrev env : Env
env = record {
  attempt = record { now = 9_000_000; connected = some 1; failed_at = 9_000_100 };
  call = answered;
  aclose_raises = false;
  now = 1000;
  later = 1000;
}

abbrev world : World entries
world = record {
  client = record { redis_client = none; last_failure_time = 0 };
  script = record { lua_script = none; lua_script_redis = none };
  store = [];
}

abbrev served : (Answer String × List UsageEntry) × Option (States fixed) × World entries
served =
    subnet_endpoint uuid valid dumps fixed scorer_config axon_uid entries AdapterClass
      (class_config settings) registry "tao-sn22" handling env network (some []) world

subnet_endpoint_admits_example :
    IsRefused uuid String valid dumps fixed scorer_config axon_uid entries AdapterClass
      (class_config settings)
      registry
      "tao-sn22"
      handling
      env
      (some [])
      world
      served
    ⊎ IsAdmitted uuid String valid dumps fixed scorer_config axon_uid entries AdapterClass
        (class_config settings)
        registry
        "tao-sn22"
        handling
        env
        network
        (some [])
        world
        served
subnet_endpoint_admits_example =
    subnet_endpoint_admits uuid String valid dumps fixed scorer_config axon_uid entries AdapterClass
      (class_config settings) registry "tao-sn22" handling env network (some []) world

abbrev render : Sse fixed scorer_config axon_uid config → String
render e = "data"

handle_stream_unanswered_example :
    let r =
      stream_of fixed scorer_config axon_uid config uuid render handling rate_result axon meets
        2_500_500 started timed_out
        (some []) in
    IsOneCharge fixed scorer_config axon_uid config uuid render handling rate_result axon 2_500_500
      200 r.1
    × (r.2
        ≡ some (
            record_observation fixed scorer_config
              (failure fixed scorer_config axon_uid config axon meets)
              []))
handle_stream_unanswered_example =
    handle_stream_unanswered fixed scorer_config axon_uid config uuid render handling rate_result
      axon meets 2_500_500 timed_out [] (inl refl)
