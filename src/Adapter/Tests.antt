-- ===== src/Adapter/Tests.antt =====
-- A request at concrete answers of the network.
use tao_gateway.Base.{any, ℕ, ◌≡◌, refl, ◌⊎◌, String, true, false, none, some, [], ◌∷◌}
use tao_gateway.Routing.Float.Fixed.{fixed}
use tao_gateway.Routing.Scorer.{Config}
use tao_gateway.Routing.Selector.{AxonInfo, selected}
use tao_gateway.Adapter.{
  AdapterConfig, invalid, Reply, responses, Meets, round_ms, MinerStream, closed_at_error,
  exhausted, chunk, ttft, stream_done, stream_chunks, stream_generator, execute,
}
use tao_gateway.Adapter.Execute.{IsScored, execute-IsScored}
use tao_gateway.Adapter.Stream.Loop.{IsOpen, is_error, texts_of, received, has_left}
use tao_gateway.Adapter.Stream.{IsEndOf, IsObserved, stream_generator_lem}

abbrev scorer_config : Config fixed
scorer_config = record { ema_alpha = 300_000_000; subnet_timeouts = [] }

abbrev axon_uid : AxonInfo → ℕ
axon_uid axon = 0

abbrev config : AdapterConfig
config = record { netuid = 1; subnet_name = "sn1"; timeout_seconds = 12 }

abbrev axon : AxonInfo
axon = record { ip = "8.8.8.8"; port = 8091; hotkey = "5F3sa2TJAWMqDhXG" }

abbrev meets : Meets
meets = record { start_time = 1000; end_time = 2_501_500; timestamp = 9; unsampled = false }

-- A half is rounded to the even.
rounds_half : round_ms 2_500_500 ≡ 2500
rounds_half = refl

abbrev bad_reply : Reply String
bad_reply = record { is_timeout = false; is_success = true; content = invalid "unknown" "sn1" }

execute-IsScored_example : IsScored fixed scorer_config axon_uid config String axon meets [] (
    execute fixed scorer_config axon_uid config
      (selected axon)
      true
      meets
      (responses (bad_reply ∷ []))
      (some []))
execute-IsScored_example =
    execute-IsScored fixed scorer_config axon_uid config String axon meets
      (responses (bad_reply ∷ [])) []

abbrev miner : MinerStream fixed scorer_config axon_uid config
miner = record {
  chunks =
      record { disconnected = false; text = ""; latency = 10_000 }
      ∷ record { disconnected = false; text = "hel"; latency = 20_000 }
      ∷ record { disconnected = false; text = "lo"; latency = 30_000 }
      ∷ [];
  end = exhausted;
}

streams_run :
    (stream_generator fixed scorer_config axon_uid config axon meets
      (responses (miner ∷ []))
      none).0
    ≡ ttft 20 ∷ chunk "hel" true ∷ chunk "lo" false ∷ stream_done ∷ []
unfolding stream_generator stream_chunks
streams_run = refl

-- The miner's stream breaks, and the generator is closed at the error event.
abbrev cut : MinerStream fixed scorer_config axon_uid config
cut = record miner { end = closed_at_error }

stream_generator_lem_example :
    let (out, scorer) =
      stream_generator fixed scorer_config axon_uid config axon meets
        (responses (cut ∷ []))
        (some []) in
    (texts_of fixed scorer_config axon_uid config out
      ≡ received fixed scorer_config axon_uid config cut.chunks)
    × (((has_left fixed scorer_config axon_uid config cut.chunks ≡ true)
          × IsOpen fixed scorer_config axon_uid config out
          × (scorer ≡ some []))
        ⊎ ((has_left fixed scorer_config axon_uid config cut.chunks ≡ false)
            × IsEndOf fixed scorer_config axon_uid config true out
            × (any (is_error fixed scorer_config axon_uid config) out ≡ true)
            × IsObserved fixed scorer_config axon_uid config axon true [] scorer))
stream_generator_lem_example =
    stream_generator_lem fixed scorer_config axon_uid config axon meets cut [] []
