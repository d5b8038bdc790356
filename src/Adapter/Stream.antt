-- ===== src/Adapter/Stream.antt =====
-- How a stream of events ends, and what it records.
pub mod Loop
use tao_gateway.Base.{
  ℕ, ◌≡◌, refl, sym, ap, ◌∙◌, any, String, if◌then◌else◌, ◌⊎◌, inl, inr, Bool, true, false, not,
  ◌&&◌, length, Option, some, arith, List, [], ◌∷◌, ◌++◌, All, str_eq, Bool-cases,
}
use tao_gateway.Adapter.Stream.Loop.{
  ends_once-append, stream_chunks-IsLoop, any-append, texts_of-append, All-append, ends_once,
  IsOpen, is_error, texts_of, received, has_left,
}
use tao_gateway.Routing.Float.{Floats}
use tao_gateway.Routing.Scorer.{ScoreObservation, Config, States, record_observation}
use tao_gateway.Routing.Selector.{AxonInfo}
use tao_gateway.Adapter.{
  AdapterConfig, Forward, timed_out, failed, responses, Meets, failure, success, Sse, sse_error,
  ttft, chunk, sse_done, stream_done, End, exhausted, stream_timeout, broken, closed,
  closed_at_timeout, closed_at_error, Chunk, MinerStream, stream_chunks, finish, stream_generator,
  shown_first,
}

module _ (x : Floats) (scorer_config : Config x) (axon_uid : AxonInfo → ℕ)
    (config : AdapterConfig) where
  abbrev Event : Type 0
  Event = Sse x scorer_config axon_uid config

  abbrev Miner : Type 0
  Miner = MinerStream x scorer_config axon_uid config

  -- The miner's stream fails: by a timeout or another exception, whether or not the generator is
  -- closed after that.
  abbrev pub is_failed : End x scorer_config axon_uid config → Bool
  is_failed exhausted = false
  is_failed closed = false
  is_failed _ = true

  -- The generator is closed from outside.
  abbrev pub is_closed : End x scorer_config axon_uid config → Bool
  is_closed closed = true
  is_closed closed_at_timeout = true
  is_closed closed_at_error = true
  is_closed _ = false

  -- The one observation that is recorded.
  abbrev pub IsObserved : AxonInfo → Bool → States x → Option (States x) → Type 0
  IsObserved axon fails states scorer =
      (o : ScoreObservation x) × (scorer ≡ some (record_observation x scorer_config o states))
      × (o.success ≡ not fails)
      × (o.response_valid ≡ not fails)
      × (o.miner_uid ≡ axon_uid axon)
      × (o.hotkey ≡ axon.hotkey)
      × (o.netuid ≡ config.netuid)

  -- Exactly one event ends the stream, unless the generator is closed.
  abbrev pub IsEndOf : Bool → List Event → Type 0
  IsEndOf true out = IsOpen x scorer_config axon_uid config out
  IsEndOf false out = ends_once x scorer_config axon_uid config out ≡ true

  abbrev finished :
      AxonInfo
      → Meets
      → End x scorer_config axon_uid config
      → List Event
      → States x
      → List Event × Option (States x)
  finished axon meets end out states =
      finish x scorer_config axon_uid config axon meets end out (some states)

  finish-IsEndOf :
      (axon : AxonInfo) (meets : Meets) (end : End x scorer_config axon_uid config)
      (out : List Event) (states : States x)
      → IsOpen x scorer_config axon_uid config out
      → any (is_error x scorer_config axon_uid config) out ≡ false
      → let (all, scorer) = finished axon meets end out states in
        IsEndOf (is_closed end) all
        × (any (is_error x scorer_config axon_uid config) all ≡ is_failed end)
        × (texts_of x scorer_config axon_uid config all
            ≡ texts_of x scorer_config axon_uid config out)
        × IsObserved axon (is_failed end) states scorer
  finish-IsEndOf axon meets exhausted out states a n = (
    ends_once-append x scorer_config axon_uid config out _ _ a,
    any-append x scorer_config axon_uid config out _ n,
    texts_of-append x scorer_config axon_uid config out _ refl,
    (success x scorer_config axon_uid config axon meets, refl, refl, refl, refl, refl, refl),
  )
  finish-IsEndOf axon meets stream_timeout out states a n = (
    ends_once-append x scorer_config axon_uid config out _ _ a,
    any-append x scorer_config axon_uid config out _ n,
    texts_of-append x scorer_config axon_uid config out _ refl,
    (failure x scorer_config axon_uid config axon meets, refl, refl, refl, refl, refl, refl),
  )
  finish-IsEndOf axon meets broken out states a n = (
    ends_once-append x scorer_config axon_uid config out _ _ a,
    any-append x scorer_config axon_uid config out _ n,
    texts_of-append x scorer_config axon_uid config out _ refl,
    (failure x scorer_config axon_uid config axon meets, refl, refl, refl, refl, refl, refl),
  )
  finish-IsEndOf axon meets closed out states a n = (
    a,
    n,
    refl,
    (success x scorer_config axon_uid config axon meets, refl, refl, refl, refl, refl, refl),
  )
  finish-IsEndOf axon meets closed_at_timeout out states a n = (
    All-append x scorer_config axon_uid config out _ a (refl, tt),
    any-append x scorer_config axon_uid config out _ n,
    texts_of-append x scorer_config axon_uid config out _ refl,
    (failure x scorer_config axon_uid config axon meets, refl, refl, refl, refl, refl, refl),
  )
  finish-IsEndOf axon meets closed_at_error out states a n = (
    All-append x scorer_config axon_uid config out _ a (refl, tt),
    any-append x scorer_config axon_uid config out _ n,
    texts_of-append x scorer_config axon_uid config out _ refl,
    (failure x scorer_config axon_uid config axon meets, refl, refl, refl, refl, refl, refl),
  )

  -- With the stream of a miner, the client gets the texts that the miner sends before the client is
  -- found to have left, without the empty ones. If it is found to have left, no event ends the stream
  -- and nothing is recorded. Else one observation of the miner is recorded, a failure exactly where
  -- its stream fails by a timeout or another exception, an error event is sent exactly then, and
  -- exactly one event ends the stream, the last; there is none where the generator is closed from
  -- outside, which records a success if the miner's stream did not fail.
  pub stream_generator_lem :
      (axon : AxonInfo) (meets : Meets) (s : Miner) (more : List Miner) (states : States x)
      → let (out, scorer) =
          stream_generator x scorer_config axon_uid config axon meets
            (responses (s ∷ more))
            (some states) in
        (texts_of x scorer_config axon_uid config out
          ≡ received x scorer_config axon_uid config s.chunks)
        × (((has_left x scorer_config axon_uid config s.chunks ≡ true)
              × IsOpen x scorer_config axon_uid config out
              × (scorer ≡ some states))
            ⊎ ((has_left x scorer_config axon_uid config s.chunks ≡ false)
                × IsEndOf (is_closed s.end) out
                × (any (is_error x scorer_config axon_uid config) out ≡ is_failed s.end)
                × IsObserved axon (is_failed s.end) states scorer))
  unfolding stream_generator
  stream_generator_lem axon meets s more states =
      let i = stream_chunks-IsLoop x scorer_config axon_uid config true s.chunks in
      elim (Bool-cases (stream_chunks x scorer_config axon_uid config true s.chunks).1) [
        | inl gone ↦ rw gone (i.same_texts, inl (sym i.same_left ∙ gone, i.open_out, refl))
        | inr there ↦
            let e = finish-IsEndOf axon meets s.end _ states i.open_out i.no_error in
            rw there (e.2 ∙ i.same_texts, inr (sym i.same_left ∙ there, e.0, e.1, e.3))
      ]

  -- Without a stream (a timeout, another error, an empty list) the events are one error and the terminator,
  -- and a failure is recorded.
  pub stream_generator_unanswered :
      (axon : AxonInfo) (meets : Meets) (forward : Forward Miner) (states : States x)
      → (forward ≡ timed_out) ⊎ (forward ≡ failed) ⊎ (forward ≡ responses [])
      → let (out, scorer) =
          stream_generator x scorer_config axon_uid config axon meets forward (some states) in
        (length out ≡ 2)
        × (ends_once x scorer_config axon_uid config out ≡ true)
        × (scorer
            ≡ some (
                record_observation x scorer_config
                  (failure x scorer_config axon_uid config axon meets)
                  states))
  unfolding stream_generator
  stream_generator_unanswered axon meets timed_out states h = (refl, refl, refl)
  stream_generator_unanswered axon meets failed states h = (refl, refl, refl)
  stream_generator_unanswered axon meets (responses []) states h = (refl, refl, refl)
  stream_generator_unanswered axon meets (responses (s ∷ more)) states h = absurd (no_stream h)
    where
      no_stream :
          (responses (s ∷ more) ≡ timed_out)
            ⊎ (responses (s ∷ more) ≡ failed)
            ⊎ (responses (s ∷ more) ≡ responses [])
          → ⊥
      no_stream (inl e) = cc
      no_stream (inr (inl e)) = cc
      no_stream (inr (inr e)) = cc
