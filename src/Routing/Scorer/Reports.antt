-- ===== src/Routing/Scorer/Reports.antt =====
-- Nothing is lost between two flushes, and what a flush leaves for the selection of miners.
use tao_gateway.Base.{
  ℕ, suc, ◌+◌, ◌≡◌, refl, String, Option, none, some, List, [], ◌∷◌, ◌++◌, arith, All, nat_eq,
  string_eq, pair_eq, ◌==◌, if◌then◌else◌, pair_beq_iff, eq_iff,
}
use tao_gateway.Base.Dict.{Dict, lookup, insert, lookup-insert}
use tao_gateway.Base.Dict.Unique.{IsUnique}
use tao_gateway.Routing.Float.{Floats, IsUnit}
use tao_gateway.Routing.Scorer.{
  ScoreObservation, MinerState, MinerQualityScore, Config, States, key_of,
  compute_observation_score, scored, counted, record_observation, get_snapshot_and_reset, quality,
  get_score, get_scores, collect,
}
use tao_gateway.Routing.Scorer.Snapshot.{
  Op, observe, flush, run, IsSound, IsMeasured, record_observation-IsSound, flush-IsSound,
}

module _ (x : Floats) where
  open x use {F, zero, leb}

  -- The requests that the snapshots report for a miner.
  abbrev pub reported : ℕ × String → List (MinerQualityScore x) → ℕ
  reported k [] = 0
  reported k (q ∷ qs) =
      let n = reported k qs in if (q.netuid, q.hotkey) == k then q.total_requests + n else n

  -- The requests that are not reported yet.
  abbrev pub pending : Option (MinerState x) → ℕ
  pending none = 0
  pending (some s) = s.total_requests

  -- The observations of a miner in a run.
  abbrev pub observed : ℕ × String → List (Op x) → ℕ
  observed k [] = 0
  observed k (observe obs ∷ ops) = let n = observed k ops in if key_of x obs == k then suc n else n
  observed k (flush ∷ ops) = observed k ops

  reported-append :
      (k : ℕ × String) (a b : List (MinerQualityScore x))
      → reported k (a ++ b) ≡ reported k a + reported k b
  reported-append k [] b = omega arith
  reported-append k (q ∷ a) b = ground (arith, reported-append k a b)

  total-counted :
      (config : Config x) (obs : ScoreObservation x) (score : F) (o : Option (MinerState x))
      → (counted x obs (scored x config obs score o)).total_requests ≡ suc (pending o)
  total-counted config obs score none = refl
  total-counted config obs score (some s) = refl

  pending-record :
      (config : Config x) (obs : ScoreObservation x) (k : ℕ × String) (states : States x)
      → pending (lookup k (record_observation x config obs states))
        ≡ (if key_of x obs == k then suc (pending (lookup k states)) else pending (lookup k states))
  unfolding record_observation
  pending-record config obs k states =
      let score = compute_observation_score x config obs in
      let o = lookup (key_of x obs) states in
      ground (
        arith,
        lookup-insert (key_of x obs) k (counted x obs (scored x config obs score o)) states,
        total-counted config obs score o,
        pair_beq_iff (key_of x obs) k,
      )

  reported-flush :
      (k : ℕ × String) (states : States x)
      → IsSound x states
      → reported k (get_snapshot_and_reset x states).0 ≡ pending (lookup k states)
  unfolding get_snapshot_and_reset
  reported-flush k [] s = refl
  reported-flush k ((j, state) ∷ states) s =
      ground (arith, reported-flush k states (s.0.1, s.1.1), s.1.0.keyed, s.0.0, pair_beq_iff j k)

  pub pending-flush :
      (k : ℕ × String) (states : States x)
      → pending (lookup k (get_snapshot_and_reset x states).1) ≡ 0
  unfolding get_snapshot_and_reset
  pending-flush k [] = refl
  pending-flush k ((j, state) ∷ states) = ground (arith, pending-flush k states)

  -- In any run of observations and flushes from a sound state, the requests that the snapshots
  -- report for a miner and those still to be reported are those of the start and those observed.
  pub reported-run :
      (config : Config x) (k : ℕ × String) (ops : List (Op x)) (states : States x)
      → IsUnit x config.ema_alpha
      → All (IsMeasured x) ops
      → IsSound x states
      → let (snapshots, end) = run x config ops states in
        reported k snapshots + pending (lookup k end) ≡ pending (lookup k states) + observed k ops
  unfolding run
  reported-run config k [] states w a s = omega arith
  reported-run config k (observe obs ∷ ops) states w a s =
      let next = record_observation x config obs states in
      ground (
        arith,
        pending-record config obs k states,
        reported-run config k ops next w a.1
            (record_observation-IsSound x config obs states w a.0 s),
      )
  reported-run config k (flush ∷ ops) states w a s =
      let (snapshot, next) = get_snapshot_and_reset x states in
      let (later, end) = run x config ops next in
      ground (
        arith,
        reported-flush k states s,
        pending-flush k states,
        reported-append k snapshot later,
        reported-run config k ops next w a.1 (flush-IsSound x states s),
      )

  collect-absent :
      (netuid : ℕ) (hotkey : String) (found : Dict String F) (states : States x)
      → lookup (netuid, hotkey) states ≡ none
      → lookup hotkey (collect x netuid found states) ≡ lookup hotkey found
  collect-absent netuid hotkey found [] h = refl
  collect-absent netuid hotkey found (((net, hk), state) ∷ states) h = ground (
    arith,
    collect-absent netuid hotkey found states,
    collect-absent netuid hotkey (insert hk state.quality_score found) states,
    lookup-insert hk hotkey state.quality_score found,
    eq_iff hk hotkey,
  )

  collect-lookup :
      (netuid : ℕ) (hotkey : String) (found : Dict String F) (states : States x)
      → IsUnique states
      → lookup hotkey found ≡ none
      → lookup hotkey (collect x netuid found states) ≡ get_score x netuid hotkey states
  unfolding get_score
  collect-lookup netuid hotkey found [] u h = h
  collect-lookup netuid hotkey found (((net, hk), state) ∷ states) u h = ground (
    arith,
    u.0,
    collect-absent netuid hotkey (insert hk state.quality_score found) states,
    collect-lookup netuid hotkey (insert hk state.quality_score found) states u.1,
    collect-lookup netuid hotkey found states u.1 h,
    lookup-insert hk hotkey state.quality_score found,
    eq_iff hk hotkey,
  )

  quality-flush :
      (k : ℕ × String) (states : States x)
      → quality x (lookup k (get_snapshot_and_reset x states).1) ≡ quality x (lookup k states)
  unfolding get_snapshot_and_reset
  quality-flush k [] = refl
  quality-flush k ((j, state) ∷ states) = ground (arith, quality-flush k states)

  -- With one entry to a miner, the scores of a subnet are those of its miners one by one, and a flush
  -- changes none of them.
  pub get_scores-flush :
      (netuid : ℕ) (hotkey : String) (states : States x)
      → IsUnique states
      → (lookup hotkey (get_scores x netuid states) ≡ get_score x netuid hotkey states)
        × (get_score x netuid hotkey (get_snapshot_and_reset x states).1
            ≡ get_score x netuid hotkey states)
  unfolding get_scores get_score
  get_scores-flush netuid hotkey states u =
      (collect-lookup netuid hotkey [] states u refl, quality-flush (netuid, hotkey) states)
