-- ===== src/Endpoints/Stream/Charge.antt =====
-- What a stream leaves in the records of usage.
use tao_gateway.Base.{ℕ, ◌≡◌, refl, ◌⊎◌, inl, inr, String, Option, some, List, [], ◌∷◌}
use tao_gateway.RateLimit.Limits.{RateLimitResult}
use tao_gateway.Routing.Float.{Floats}
use tao_gateway.Routing.Scorer.{Config, States, record_observation}
use tao_gateway.Routing.Selector.{AxonInfo, selected}
use tao_gateway.Adapter.{
  AdapterConfig, Meets, round_ms, failure, Forward, timed_out, failed, responses, Sse, MinerStream,
  stream_generator,
}
use tao_gateway.Usage.{UsageEntry}
use tao_gateway.Endpoints.{Handling}
use tao_gateway.Endpoints.Accounting.{IsCharged, IsMeasured, usage_entry-IsCharged}
use tao_gateway.Endpoints.Stream.{
  Start, StreamAnswer, started, start_raises, start_crashes, handle_stream,
}

abbrev pub stream_status : Start → ℕ
stream_status started = 200
stream_status (start_raises e) = 502
stream_status start_crashes = 502

module _ (x : Floats) (scorer_config : Config x) (axon_uid : AxonInfo → ℕ) (config : AdapterConfig)
    (uuid : String → ℕ) (render : Sse x scorer_config axon_uid config → String) (h : Handling)
    (rate_result : RateLimitResult) where
  -- Exactly one record, of a status, with the miner and the time of the stream.
  abbrev pub IsOneCharge : AxonInfo → ℕ → ℕ → List UsageEntry → Type 0
  IsOneCharge axon elapsed status usage =
      (u : UsageEntry) × (usage ≡ u ∷ [])
      × IsCharged uuid config h status u
      × IsMeasured uuid axon (round_ms elapsed) u

  module _ (axon : AxonInfo) (meets : Meets) (elapsed : ℕ) where
    abbrev pub stream_of :
        Start
        → Forward (MinerStream x scorer_config axon_uid config)
        → Option (States x)
        → StreamAnswer x scorer_config axon_uid config uuid render
          × List UsageEntry
          × Option (States x)
    stream_of start forward scorer =
        handle_stream x scorer_config axon_uid config uuid render h rate_result (selected axon)
          (record { start = start; meets = meets; forward = forward; elapsed = elapsed }) scorer

    -- A stream through a miner leaves exactly one record of usage, with the miner and the time that
    -- the stream took: of the status 502 if the adapter cannot build the request, and else of the
    -- status 200, however the miner's stream ends.
    pub handle_stream-IsOneCharge :
        (start : Start) (forward : Forward (MinerStream x scorer_config axon_uid config))
        (scorer : Option (States x))
        → IsOneCharge axon elapsed (stream_status start) (stream_of start forward scorer).1
    unfolding handle_stream
    handle_stream-IsOneCharge started forward scorer = (
      _,
      refl,
      usage_entry-IsCharged uuid config h _,
      record { of_miner = λ id now. refl; of_latency = λ id now. refl },
    )
    handle_stream-IsOneCharge start forward scorer = (
      _,
      refl,
      usage_entry-IsCharged uuid config h _,
      record { of_miner = λ id now. refl; of_latency = λ id now. refl },
    )

    -- The network ends without a stream.
    abbrev pub IsUnanswered : Forward (MinerStream x scorer_config axon_uid config) → Type 0
    IsUnanswered forward = (forward ≡ timed_out) ⊎ (forward ≡ failed) ⊎ (forward ≡ responses [])

    -- Where the network gives no stream, the miner has a failure, and the one record of usage has
    -- the status 200 all the same.
    pub handle_stream_unanswered :
        (forward : Forward (MinerStream x scorer_config axon_uid config)) (states : States x)
        → IsUnanswered forward
        → let r = stream_of started forward (some states) in
          IsOneCharge axon elapsed 200 r.1
          × (r.2
              ≡ some (
                  record_observation x scorer_config
                    (failure x scorer_config axon_uid config axon meets)
                    states))
    unfolding handle_stream stream_generator
    handle_stream_unanswered timed_out states u =
        (handle_stream-IsOneCharge started timed_out (some states), refl)
    handle_stream_unanswered failed states u =
        (handle_stream-IsOneCharge started failed (some states), refl)
    handle_stream_unanswered (responses []) states u =
        (handle_stream-IsOneCharge started (responses []) (some states), refl)
    handle_stream_unanswered (responses (s ∷ more)) states u =
        absurd (elim u [ inl e ↦ cc | inr (inl e) ↦ cc | inr (inr e) ↦ cc ])
