-- ===== src/Routing/Scorer/Snapshot.antt =====
-- Runs of observations and flushes: what holds in every state, and what the flushes report.
use tao_gateway.Base.{
  ℕ, ◌≤◌, ◌≡◌, refl, String, true, Option, none, some, List, [], ◌∷◌, ◌++◌, arith, All, nat_eq,
  string_eq, pair_eq,
}
use tao_gateway.Base.Dict.{lookup}
use tao_gateway.Base.Dict.Unique.{IsUnique, insert-IsUnique, All-lookup, All-insert}
use tao_gateway.Routing.Float.{Floats, IsUnit}
use tao_gateway.Routing.Scorer.{
  ScoreObservation, MinerState, MinerQualityScore, Config, States, key_of,
  compute_observation_score, scored, counted, record_observation, get_snapshot_and_reset,
}
use tao_gateway.Routing.Scorer.Bounds.{compute_observation_score-IsUnit, average-IsUnit}

module _ (x : Floats) where
  open x use {F, zero, leb}

  pub data Op : Type 0 where
    observe : ScoreObservation x → Op
    flush : Op

  -- The snapshots of the flushes, one after another, and the states in the end.
  unfoldable pub run : Config x → List Op → States x → List (MinerQualityScore x) × States x
  run config [] states = ([], states)
  run config (observe obs ∷ ops) states = run config ops (record_observation x config obs states)
  run config (flush ∷ ops) states =
      let (snapshot, states') = get_snapshot_and_reset x states in
      let (later, end) = run config ops states' in (snapshot ++ later, end)

  -- An entry stands under its own key, its score is between 0.0 and 1.0, and no more of its requests
  -- succeeded than there were.
  pub record IsFair (e : (ℕ × String) × MinerState x) : Type 0 where
    pub keyed : e.0 ≡ (e.1.netuid, e.1.hotkey)
    pub score : IsUnit x e.1.quality_score
    pub counts : e.1.successful_requests ≤ e.1.total_requests

  abbrev pub IsSound : States x → Type 0
  IsSound states = IsUnique states × All IsFair states

  -- The latencies that the adapters measure are not negative.
  abbrev pub IsMeasured : Op → Type 0
  IsMeasured (observe obs) = leb zero obs.latency_ms ≡ true
  IsMeasured flush = Unit

  counted-IsFair :
      (config : Config x) (obs : ScoreObservation x) (states : States x) (o : Option (MinerState x))
      → IsUnit x config.ema_alpha
      → leb zero obs.latency_ms ≡ true
      → All IsFair states
      → lookup (key_of x obs) states ≡ o
      → IsFair (
        key_of x obs,
        counted x obs (scored x config obs (compute_observation_score x config obs) o),
      )
  counted-IsFair config obs states none w h a e = record {
    keyed = refl;
    score = compute_observation_score-IsUnit x config obs h;
    counts = ground arith;
  }
  counted-IsFair config obs states (some s) w h a e =
      let f = All-lookup IsFair (key_of x obs) s states a e in
      record {
        keyed = f.keyed;
        score =
            average-IsUnit x config.ema_alpha (compute_observation_score x config obs)
              s.quality_score w (compute_observation_score-IsUnit x config obs h) f.score;
        counts = ground (arith, f.counts);
      }

  pub record_observation-IsSound :
      (config : Config x) (obs : ScoreObservation x) (states : States x)
      → IsUnit x config.ema_alpha
      → leb zero obs.latency_ms ≡ true
      → IsSound states
      → IsSound (record_observation x config obs states)
  unfolding record_observation
  record_observation-IsSound config obs states w h s =
      let o = lookup (key_of x obs) states in
      let v = counted x obs (scored x config obs (compute_observation_score x config obs) o) in
      (
        insert-IsUnique (key_of x obs) v states s.0,
        All-insert IsFair (key_of x obs) v states (counted-IsFair config obs states o w h s.1 refl)
            s.1,
      )

  pub lookup-reset :
      (k : ℕ × String) (states : States x)
      → lookup k states ≡ none
      → lookup k (get_snapshot_and_reset x states).1 ≡ none
  unfolding get_snapshot_and_reset
  lookup-reset k [] h = refl
  lookup-reset k ((j, s) ∷ states) h = ground (arith, lookup-reset k states)

  pub flush-IsSound :
      (states : States x) → IsSound states → IsSound (get_snapshot_and_reset x states).1
  unfolding get_snapshot_and_reset
  flush-IsSound [] s = s
  flush-IsSound ((k, state) ∷ states) s =
      let rest = flush-IsSound states (s.0.1, s.1.1) in
      (
        (lookup-reset k states s.0.0, rest.0),
        (record { keyed = s.1.0.keyed; score = s.1.0.score; counts = omega arith }, rest.1),
      )

  -- With an alpha between 0.0 and 1.0 and latencies that are not negative, after any run of
  -- observations and flushes from a sound state (the empty one is) each miner has one entry, under
  -- its own key, a score between 0.0 and 1.0, and no more successes than requests.
  run-IsSound :
      (config : Config x) (ops : List Op) (states : States x)
      → IsUnit x config.ema_alpha
      → All IsMeasured ops
      → IsSound states
      → IsSound (run config ops states).1
  unfolding run
  run-IsSound config [] states w a s = s
  run-IsSound config (observe obs ∷ ops) states w a s =
      run-IsSound config ops (record_observation x config obs states) w a.1
        (record_observation-IsSound config obs states w a.0 s)
  run-IsSound config (flush ∷ ops) states w a s =
      run-IsSound config ops (get_snapshot_and_reset x states).1 w a.1 (flush-IsSound states s)
