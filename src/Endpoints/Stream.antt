-- ===== src/Endpoints/Stream.antt =====
-- `_handle_stream` of gateway/api/chat.py, with `execute_stream` of gateway/subnets/base.py: the
-- streaming answer of a chat completion. `render` is the text of an event. A generator that is closed
-- from outside is an end of the miner's stream (`closed` and the two after it).
pub mod Charge
use tao_gateway.Base.{
  ℕ, String, str_append, Bool, true, false, Option, none, some, List, [], ◌∷◌, ◌++◌, if◌then◌else◌,
}
use tao_gateway.Base.Dict.{Dict}
use tao_gateway.Errors.{GatewayError, error_type, message}
use tao_gateway.RateLimit.Limits.{RateLimitResult, to_headers}
use tao_gateway.Routing.Float.{Floats}
use tao_gateway.Routing.Scorer.{Config, States}
use tao_gateway.Routing.Selector.{AxonInfo, Selection, selected, raised, value_error}
use tao_gateway.Adapter.{
  AdapterConfig, uid_prefix, round_ms, Meets, Forward, MinerStream, Sse, sse_error, sse_done,
  stream_generator,
}
use tao_gateway.Usage.{UsageEntry}
use tao_gateway.Endpoints.{Handling, Report, usage_entry, merge_headers}

-- How `to_streaming_synapse`, the first step of the adapter's generator, ends.
pub data Start : Type 0 where
  started : Start
  start_raises : GatewayError → Start
  start_crashes : Start

module _ (x : Floats) (scorer_config : Config x) (axon_uid : AxonInfo → ℕ) (config : AdapterConfig)
    (uuid : String → ℕ) (render : Sse x scorer_config axon_uid config → String) where
  abbrev pub Events : Type 0
  Events = List (Sse x scorer_config axon_uid config)

  -- The response, whose events go out as they are made, or an exception before it.
  pub data StreamAnswer : Type 0 where
    streams : Dict String String → Events → StreamAnswer
    stream_fails : GatewayError → StreamAnswer
    stream_breaks : StreamAnswer

  -- What a stream meets; `elapsed` is the time of the outer generator in microseconds.
  pub record Streaming : Type 0 where
    pub start : Start
    pub meets : Meets
    pub forward : Forward (MinerStream x scorer_config axon_uid config)
    pub elapsed : ℕ

  -- The `headers` of `execute_stream`.
  abbrev pub stream_headers : AxonInfo → Dict String String
  stream_headers axon =
      ("X-TaoGateway-Miner-UID", uid_prefix axon) ∷ ("X-TaoGateway-Subnet", config.subnet_name) ∷ []

  abbrev pub response_headers : AxonInfo → RateLimitResult → Dict String String
  response_headers axon rate_result =
      merge_headers
        (merge_headers (("Cache-Control", "no-cache") ∷ ("Connection", "keep-alive") ∷ [])
          (stream_headers axon))
        (to_headers rate_result)

  abbrev pub join : Events → String
  join [] = ""
  join (e ∷ events) = str_append (render e) (join events)

  -- `"".join(collected_chunks)`, if there are any.
  abbrev pub collected : Events → Option String
  collected [] = none
  collected (e ∷ events) = some (join (e ∷ events))

  -- The body of `_generator`: the chunks of the adapter, what follows them, `had_error`, the scorer.
  abbrev pub generate :
      AxonInfo → Streaming → Option (States x) → Events × Events × Bool × Option (States x)
  generate axon s scorer = elim s.start [
    | started ↦
        let (chunks, scorer') =
          stream_generator x scorer_config axon_uid config axon s.meets s.forward scorer in
        (chunks, [], false, scorer')
    | start_raises e ↦ ([], sse_error (error_type e) (message e) ∷ sse_done ∷ [], true, scorer)
    | start_crashes ↦
        ([], sse_error "internal_error" "Internal server error" ∷ sse_done ∷ [], true, scorer)
  ]

  abbrev pub stream_report : AxonInfo → Streaming → Events → Bool → Report
  stream_report axon s chunks had_error = record {
    miner_uid = some (uid_prefix axon);
    latency_ms = round_ms s.elapsed;
    status = if had_error then 502 else 200;
    response_body = collected chunks;
  }

  unfoldable pub handle_stream :
      Handling
      → RateLimitResult
      → Selection
      → Streaming
      → Option (States x)
      → StreamAnswer × List UsageEntry × Option (States x)
  handle_stream h rate_result (raised e) s scorer = (stream_fails e, [], scorer)
  handle_stream h rate_result value_error s scorer = (stream_breaks, [], scorer)
  handle_stream h rate_result (selected axon) s scorer =
      let (chunks, more, had_error, scorer') = generate axon s scorer in
      (
        streams (response_headers axon rate_result) (chunks ++ more),
        usage_entry uuid config h (stream_report axon s chunks had_error) ∷ [],
        scorer',
      )
