-- ===== src/Endpoints.antt =====
-- gateway/api/_subnet_handler.py and the endpoints that call it: gateway/api/chat.py,
-- gateway/api/images.py, gateway/api/code.py, gateway/api/search.py and gateway/api/detection.py.
-- A call of `record_usage` is given by its arguments; its task runs by itself. `valid` says whether
-- the schema of the response validates a body, `dumps` is `safe_json_dumps`,
-- `uuid` the number of an id. The logging is left out.
pub mod Stream
pub mod Accounting
pub mod Admission
mod Tests
use tao_gateway.Base.{
  ℕ, String, Bool, true, false, Option, none, some, List, [], ◌∷◌, if◌then◌else◌, string_eq,
}
use tao_gateway.Base.Text.Decimal.{int_of}
use tao_gateway.Base.Dict.{Dict, lookup, insert}
use tao_gateway.Errors.{GatewayError, miner_invalid_response_error, status_code, Result, ok, err}
use tao_gateway.RateLimit.Limits.{RateLimitResult, to_headers}
use tao_gateway.RateLimit.Store.{CounterStore}
use tao_gateway.RateLimit.Check.{Env, World, enforce_rate_limit}
use tao_gateway.ApiKeys.Auth.{ApiKeyInfo}
use tao_gateway.Routing.Float.{Floats}
use tao_gateway.Routing.Scorer.{Config, States}
use tao_gateway.Routing.Selector.{AxonInfo, Selection}
use tao_gateway.Adapter.{
  AdapterConfig, Reply, Forward, Meets, Outcome, returned, raises, escapes, execute,
}
use tao_gateway.Registry.{AdapterRegistry, get_by_model}
use tao_gateway.Usage.{UsageRecord, UsageEntry}

-- How a request ends: with a response of status 200, its body and headers, with an exception of the
-- gateway, or with another.
pub data Answer (B : Type 0) : Type 0 where
  responded : B → Dict String String → Answer B
  failed_with : GatewayError → Answer B
  broken : Answer B

-- `{**a, **b}`
abbrev pub merge_headers : Dict String String → Dict String String → Dict String String
merge_headers a [] = a
merge_headers a ((name, value) ∷ b) = merge_headers (insert name value a) b

abbrev pub or_unknown : Option String → String
or_unknown none = "unknown"
or_unknown (some s) = s

-- What the handler knows of a request: its key, its endpoint, and its body as JSON.
pub record Handling : Type 0 where
  pub api_key : ApiKeyInfo
  pub endpoint : String
  pub request_body_json : String

-- What it reports of the answer.
pub record Report : Type 0 where
  pub miner_uid : Option String
  pub latency_ms : ℕ
  pub status : ℕ
  pub response_body : Option String

abbrev pub if_debug : ApiKeyInfo → Option String → Option String
if_debug key body = if key.debug_mode then body else none

-- The arguments of `record_usage`; the counts of tokens are left at 0.
abbrev pub usage_entry : (String → ℕ) → AdapterConfig → Handling → Report → UsageEntry
usage_entry uuid config h report = record {
  row = λ id now. record {
    id = id;
    api_key_id = uuid h.api_key.key_id;
    org_id = uuid h.api_key.org_id;
    subnet_name = config.subnet_name;
    netuid = config.netuid;
    endpoint = h.endpoint;
    miner_uid = report.miner_uid;
    latency_ms = report.latency_ms;
    status_code = report.status;
    prompt_tokens = 0;
    completion_tokens = 0;
    total_tokens = 0;
    created_at = now;
  };
  debug_mode = h.api_key.debug_mode;
  request_body = if_debug h.api_key (some h.request_body_json);
  response_body = if_debug h.api_key report.response_body;
}

abbrev pub failure_report : ℕ → Report
failure_report status = record {
  miner_uid = none;
  latency_ms = 0;
  status = status;
  response_body = none;
}

module _ (uuid : String → ℕ) {B : Type 0} (valid : B → Bool) (dumps : B → Option String) where
  abbrev pub latency_of : Option String → ℕ
  latency_of none = 0
  latency_of (some s) = int_of s

  abbrev pub success_report : B → Dict String String → Report
  success_report body headers = record {
    miner_uid = lookup "X-TaoGateway-Miner-UID" headers;
    latency_ms = latency_of (lookup "X-TaoGateway-Latency-Ms" headers);
    status = 200;
    response_body = dumps body;
  }

  -- What follows on `adapter.execute`: the answer, and the calls of `record_usage`.
  unfoldable pub answer :
      AdapterConfig → Handling → RateLimitResult → Outcome B → Answer B × List UsageEntry
  answer config h rate_result (raises e) =
      (failed_with e, usage_entry uuid config h (failure_report (status_code e)) ∷ [])
  answer config h rate_result escapes =
      (broken, usage_entry uuid config h (failure_report 500) ∷ [])
  answer config h rate_result (returned body headers) =
      if valid body
      then (
        responded body (merge_headers headers (to_headers rate_result)),
        usage_entry uuid config h (success_report body headers) ∷ [],
      )
      else (
        failed_with (
            miner_invalid_response_error (or_unknown (lookup "X-TaoGateway-Miner-UID" headers))
              (or_unknown (lookup "X-TaoGateway-Subnet" headers))),
        [],
      )

  module _ (x : Floats) (scorer_config : Config x) (axon_uid : AxonInfo → ℕ) where
    -- What the adapter meets: the answer of `select_miner` for a netuid, whether `to_synapse`
    -- returns, the clocks, and the network.
    pub record Network : Type 0 where
      pub select_miner : ℕ → Selection
      pub built : Bool
      pub meets : Meets
      pub forward : Forward (Reply B)

    unfoldable pub execute_subnet_request :
        AdapterConfig
        → Handling
        → RateLimitResult
        → Network
        → Option (States x)
        → (Answer B × List UsageEntry) × Option (States x)
    execute_subnet_request config h rate_result n scorer =
        let (outcome, scorer') =
          execute x scorer_config axon_uid config (n.select_miner config.netuid) n.built n.meets
            n.forward scorer in
        (answer config h rate_result outcome, scorer')

    module _ (c : CounterStore) (A : Type 0) (get_config : A → AdapterConfig) where
      -- The request after `enforce_rate_limit`.
      abbrev pub continue_with :
          AdapterConfig
          → Handling
          → Network
          → Option (States x)
          → Result RateLimitResult × World c
          → (Answer B × List UsageEntry) × Option (States x) × World c
      continue_with config h n scorer (err e, w) = ((failed_with e, []), scorer, w)
      continue_with config h n scorer (ok rate_result, w) =
          let (done, scorer') = execute_subnet_request config h rate_result n scorer in
          (done, scorer', w)

      abbrev pub with_adapter :
          Handling
          → Env
          → Network
          → Option (States x)
          → World c
          → Result A
          → (Answer B × List UsageEntry) × Option (States x) × World c
      with_adapter h env n scorer w (err e) = ((failed_with e, []), scorer, w)
      with_adapter h env n scorer w (ok adapter) =
          let config = get_config adapter in
          continue_with config h n scorer
            (enforce_rate_limit c h.api_key.key_id config.netuid config.subnet_name env w)

      -- The endpoints `create_chat_completion` without a stream, `generate_image`, `create_search`,
      -- `create_moderation` and that for code, from the model that the body names.
      unfoldable pub subnet_endpoint :
          AdapterRegistry A get_config
          → String
          → Handling
          → Env
          → Network
          → Option (States x)
          → World c
          → (Answer B × List UsageEntry) × Option (States x) × World c
      subnet_endpoint registry model h env n scorer w =
          with_adapter h env n scorer w (get_by_model A get_config model registry)
