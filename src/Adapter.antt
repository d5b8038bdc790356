-- ===== src/Adapter.antt =====
-- gateway/subnets/base.py: the life cycle of a request to a miner. What an adapter of one subnet
-- converts and what the network gives is an argument; `B` is the type of a response body. Times are
-- whole microseconds. The logging is left out.
pub mod Execute
pub mod Search
pub mod Detection
pub mod Text
pub mod Image
pub mod Stream
mod Tests
use tao_gateway.Base.{
  ℕ, suc, ◌+◌, ◌-◌, ◌/◌, ◌%◌, String, Bool, true, false, Option, none, some, List, [], ◌∷◌, ◌++◌,
  ltb, nat_beq, str_eq, str, prefix, if◌then◌else◌,
}
use tao_gateway.Base.Dict.{Dict}
use tao_gateway.Errors.{GatewayError, miner_timeout_error, miner_invalid_response_error}
use tao_gateway.Routing.Float.{Floats}
use tao_gateway.Routing.Scorer.{ScoreObservation, Config, States, record_observation}
use tao_gateway.Routing.Selector.{AxonInfo, Selection, selected, raised, value_error}

pub record AdapterConfig : Type 0 where
  pub netuid : ℕ
  pub subnet_name : String
  pub timeout_seconds : ℕ

-- `axon.hotkey[:MINER_UID_PREFIX_LEN]`
abbrev pub uid_prefix : AxonInfo → String
uid_prefix axon = prefix 8 axon.hotkey

-- `round(elapsed * 1000)` of a time in microseconds: to the nearest, a half to the even.
abbrev pub round_ms : ℕ → ℕ
round_ms elapsed =
    let q = elapsed / 1000 in
    let r = elapsed % 1000 in
    if ltb r 500 then q else if ltb 500 r then suc q else if nat_beq (q % 2) 0 then q else suc q

-- `from_response` and `sanitize_output`: a body, the exception that they raise for a response that
-- is not valid, with its uid and subnet, or another exception.
pub data Converted (B : Type 0) : Type 0 where
  converted : B → Converted B
  invalid : String → String → Converted B
  crashed : Converted B

pub record Reply (B : Type 0) : Type 0 where
  pub is_timeout : Bool
  pub is_success : Bool
  pub content : Converted B

-- How `dendrite.forward` ends: by `TimeoutError`, by another exception, or with its list.
pub data Forward (R : Type 0) : Type 0 where
  timed_out failed : Forward R
  responses : List R → Forward R

-- What a request meets: the clocks, and whether `random.random() >= sample_rate`.
pub record Meets : Type 0 where
  pub start_time : ℕ
  pub end_time : ℕ
  pub timestamp : ℕ
  pub unsampled : Bool

pub data Outcome (B : Type 0) : Type 0 where
  returned : B → Dict String String → Outcome B
  raises : GatewayError → Outcome B
  escapes : Outcome B

module _ (x : Floats) (scorer_config : Config x) (axon_uid : AxonInfo → ℕ)
    (config : AdapterConfig) where
  open x use {F, decimal}

  abbrev pub elapsed_ms : Meets → ℕ
  elapsed_ms meets = round_ms (meets.end_time - meets.start_time)

  abbrev pub sampled : Bool → Option Bool → Bool → Option Bool
  sampled true (some c) true = none
  sampled _ c _ = c

  -- The observation of `_record_score`.
  abbrev pub observation : AxonInfo → Meets → Bool → Bool → Option Bool → ScoreObservation x
  observation axon meets success response_valid response_complete = record {
    miner_uid = axon_uid axon;
    hotkey = axon.hotkey;
    netuid = config.netuid;
    success = success;
    latency_ms = decimal (elapsed_ms meets) 0;
    response_valid = response_valid;
    response_complete = sampled success response_complete meets.unsampled;
    timestamp = meets.timestamp;
  }

  abbrev pub record_score : ScoreObservation x → Option (States x) → Option (States x)
  record_score obs none = none
  record_score obs (some states) = some (record_observation x scorer_config obs states)

  abbrev pub failure : AxonInfo → Meets → ScoreObservation x
  failure axon meets = observation axon meets false false none

  abbrev pub success : AxonInfo → Meets → ScoreObservation x
  success axon meets = observation axon meets true true (some true)

  abbrev pub timeout_of : AxonInfo → GatewayError
  timeout_of axon = miner_timeout_error (uid_prefix axon) config.subnet_name

  abbrev pub invalid_of : AxonInfo → GatewayError
  invalid_of axon = miner_invalid_response_error (uid_prefix axon) config.subnet_name

  abbrev pub gateway_headers : AxonInfo → Meets → Dict String String
  gateway_headers axon meets =
      ("X-TaoGateway-Miner-UID", uid_prefix axon)
      ∷ ("X-TaoGateway-Latency-Ms", str (elapsed_ms meets))
      ∷ ("X-TaoGateway-Subnet", config.subnet_name)
      ∷ []

  module _ {B : Type 0} where
    -- Step 5 and after.
    abbrev pub convert :
        AxonInfo → Meets → Converted B → Option (States x) → Outcome B × Option (States x)
    convert axon meets (converted body) scorer =
        (returned body (gateway_headers axon meets), record_score (success axon meets) scorer)
    convert axon meets (invalid uid subnet) scorer = (
      raises (
          if str_eq uid "unknown"
          then invalid_of axon
          else miner_invalid_response_error uid subnet),
      record_score (failure axon meets) scorer,
    )
    convert axon meets crashed scorer = (escapes, scorer)

    -- Step 4.
    abbrev pub validate :
        AxonInfo → Meets → Reply B → Option (States x) → Outcome B × Option (States x)
    validate axon meets reply scorer =
        if reply.is_timeout
        then (raises (timeout_of axon), record_score (failure axon meets) scorer)
        else if reply.is_success
        then convert axon meets reply.content scorer
        else (raises (invalid_of axon), record_score (failure axon meets) scorer)

    -- Step 3.
    abbrev pub query :
        AxonInfo → Meets → Forward (Reply B) → Option (States x) → Outcome B × Option (States x)
    query axon meets timed_out scorer =
        (raises (timeout_of axon), record_score (failure axon meets) scorer)
    query axon meets failed scorer =
        (raises (invalid_of axon), record_score (failure axon meets) scorer)
    query axon meets (responses []) scorer =
        (raises (invalid_of axon), record_score (failure axon meets) scorer)
    query axon meets (responses (reply ∷ more)) scorer = validate axon meets reply scorer

    -- `execute`, from the answer of `select_miner`; the second argument is whether `to_synapse`
    -- returns.
    unfoldable pub execute :
        Selection
        → Bool
        → Meets
        → Forward (Reply B)
        → Option (States x)
        → Outcome B × Option (States x)
    execute (raised e) built meets forward scorer = (raises e, scorer)
    execute value_error built meets forward scorer = (escapes, scorer)
    execute (selected axon) built meets forward scorer =
        if built then query axon meets forward scorer else (escapes, scorer)

  -- A piece of the stream of events: an error, the terminator, the comment with the latency of the first
  -- chunk, a chunk and whether it has the role, or the stop chunk with its terminator.
  pub data Sse : Type 0 where
    sse_error : String → String → Sse
    sse_done : Sse
    ttft : ℕ → Sse
    chunk : String → Bool → Sse
    stream_done : Sse

  -- How the loop over the miner's stream ends: the stream is exhausted, a `TimeoutError`, another
  -- exception, or the generator is closed or cancelled from outside, while it waits at the `yield` of
  -- its last chunk, or at that of the error event after a `TimeoutError` or another exception.
  pub data End : Type 0 where
    exhausted stream_timeout broken : End
    closed closed_at_timeout closed_at_error : End

  -- A miner's stream: each chunk with what `is_disconnected` says before it and the latency then.
  pub record Chunk : Type 0 where
    pub disconnected : Bool
    pub text : String
    pub latency : ℕ

  pub record MinerStream : Type 0 where
    pub chunks : List Chunk
    pub end : End

  abbrev pub shown_first : Bool → String → ℕ → List Sse → List Sse
  shown_first true t latency rest = ttft (round_ms latency) ∷ chunk t true ∷ rest
  shown_first false t latency rest = chunk t false ∷ rest

  -- The loop: what it yields, and `client_disconnected`.
  unfoldable pub stream_chunks : Bool → List Chunk → List Sse × Bool
  stream_chunks first [] = ([], false)
  stream_chunks first (c ∷ chunks) =
      let (rest, gone) = stream_chunks first chunks in
      let (later, gone_later) = stream_chunks false chunks in
      if c.disconnected
      then ([], true)
      else if str_eq c.text ""
      then (rest, gone)
      else (shown_first first c.text c.latency later, gone_later)

  abbrev pub timeout_event : Sse
  timeout_event = sse_error "gateway_timeout" "Miner timed out mid-stream"

  abbrev pub error_event : Sse
  error_event = sse_error "bad_gateway" "Miner communication error"

  -- The `except` branches, `finally` and step 4.
  abbrev pub finish :
      AxonInfo → Meets → End → List Sse → Option (States x) → List Sse × Option (States x)
  finish axon meets exhausted out scorer =
      (out ++ (stream_done ∷ []), record_score (success axon meets) scorer)
  finish axon meets stream_timeout out scorer =
      (out ++ (timeout_event ∷ sse_done ∷ []), record_score (failure axon meets) scorer)
  finish axon meets broken out scorer =
      (out ++ (error_event ∷ sse_done ∷ []), record_score (failure axon meets) scorer)
  finish axon meets closed out scorer = (out, record_score (success axon meets) scorer)
  finish axon meets closed_at_timeout out scorer =
      (out ++ (timeout_event ∷ []), record_score (failure axon meets) scorer)
  finish axon meets closed_at_error out scorer =
      (out ++ (error_event ∷ []), record_score (failure axon meets) scorer)

  abbrev pub stream :
      AxonInfo → Meets → MinerStream → Option (States x) → List Sse × Option (States x)
  stream axon meets s scorer =
      let (out, gone) = stream_chunks true s.chunks in
      if gone then (out, scorer) else finish axon meets s.end out scorer

  -- `_stream_generator`, after `to_streaming_synapse` returned: all that it yields.
  unfoldable pub stream_generator :
      AxonInfo → Meets → Forward MinerStream → Option (States x) → List Sse × Option (States x)
  stream_generator axon meets timed_out scorer = (
    sse_error "gateway_timeout" "Miner timed out" ∷ sse_done ∷ [],
    record_score (failure axon meets) scorer,
  )
  stream_generator axon meets failed scorer = (
    sse_error "bad_gateway" "Miner communication error" ∷ sse_done ∷ [],
    record_score (failure axon meets) scorer,
  )
  stream_generator axon meets (responses []) scorer = (
    sse_error "bad_gateway" "Empty response" ∷ sse_done ∷ [],
    record_score (failure axon meets) scorer,
  )
  stream_generator axon meets (responses (s ∷ more)) scorer = stream axon meets s scorer
