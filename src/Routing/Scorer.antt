-- ===== src/Routing/Scorer.antt =====
-- gateway/routing/scorer.py: the quality scores of the miners, in memory. The lock makes each method
-- one step. Timestamps are whole microseconds.
pub mod Bounds
pub mod Snapshot
pub mod Reports
use tao_gateway.Base.{
  ℕ, zero as nil, suc, ◌+◌, ◌≡◌, String, Bool, true, false, Option, none, some, List, [], ◌∷◌, ltb,
  nat_beq, if◌then◌else◌, nat_eq, string_eq, pair_eq,
}
use tao_gateway.Base.Dict.{Dict, lookup, insert}
use tao_gateway.Routing.Float.{Floats, maximum}

module _ (x : Floats) where
  open x use {F, zero, one, add, sub, mul, div, decimal, leb}

  pub record ScoreObservation : Type 0 where
    pub miner_uid : ℕ
    pub hotkey : String
    pub netuid : ℕ
    pub success : Bool
    pub latency_ms : F
    pub response_valid : Bool
    pub response_complete : Option Bool
    pub timestamp : ℕ

  pub record MinerQualityScore : Type 0 where
    pub miner_uid : ℕ
    pub hotkey : String
    pub netuid : ℕ
    pub quality_score : F
    pub total_requests : ℕ
    pub successful_requests : ℕ
    pub avg_latency_ms : F
    pub last_updated : ℕ

  -- `_MinerState`
  pub record MinerState : Type 0 where
    pub miner_uid : ℕ
    pub hotkey : String
    pub netuid : ℕ
    pub quality_score : F
    pub total_requests : ℕ
    pub successful_requests : ℕ
    pub latency_sum_ms : F
    pub last_updated : ℕ

  -- The arguments of `MinerScorer` that the scores depend on.
  pub record Config : Type 0 where
    pub ema_alpha : F
    pub subnet_timeouts : Dict ℕ F

  -- (netuid, hotkey) → state
  abbrev pub States : Type 0
  States = Dict (ℕ × String) MinerState

  abbrev pub key_of : ScoreObservation → ℕ × String
  key_of obs = (obs.netuid, obs.hotkey)

  -- `float(b)`
  abbrev pub float : Bool → F
  float b = if b then one else zero

  abbrev pub timeout_of : Option F → F
  timeout_of none = decimal 30_000 0
  timeout_of (some t) = t

  abbrev pub completeness : Option Bool → F
  completeness none = one
  completeness (some b) = float b

  abbrev pub latency_ratio : F → F → F
  latency_ratio latency_ms timeout_ms =
      if leb timeout_ms zero then zero else maximum x zero (sub one (div latency_ms timeout_ms))

  unfoldable pub compute_observation_score : Config → ScoreObservation → F
  compute_observation_score config obs =
      add
        (add (mul (decimal 5 1) (float obs.success)) (
          mul (decimal 3 1)
            (latency_ratio obs.latency_ms (timeout_of (lookup obs.netuid config.subnet_timeouts)))))
        (mul (decimal 2 1) (completeness obs.response_complete))

  abbrev pub new_state : ScoreObservation → F → MinerState
  new_state obs score = record {
    miner_uid = obs.miner_uid;
    hotkey = obs.hotkey;
    netuid = obs.netuid;
    quality_score = score;
    total_requests = 0;
    successful_requests = 0;
    latency_sum_ms = zero;
    last_updated = obs.timestamp;
  }

  -- The score of a known miner moves by the weight alpha.
  abbrev pub scored : Config → ScoreObservation → F → Option MinerState → MinerState
  scored config obs score none = new_state obs score
  scored config obs score (some state) = record state {
    quality_score =
        add (mul config.ema_alpha score) (mul (sub one config.ema_alpha) state.quality_score);
  }

  abbrev pub counted : ScoreObservation → MinerState → MinerState
  counted obs state = record state {
    total_requests = suc state.total_requests;
    successful_requests =
        (if obs.success then suc state.successful_requests else state.successful_requests);
    latency_sum_ms = add state.latency_sum_ms obs.latency_ms;
    last_updated = obs.timestamp;
  }

  unfoldable pub record_observation : Config → ScoreObservation → States → States
  record_observation config obs states =
      insert (key_of obs)
        (counted obs
          (scored config obs (compute_observation_score config obs) (lookup (key_of obs) states)))
        states

  abbrev pub quality : Option MinerState → Option F
  quality none = none
  quality (some state) = some state.quality_score

  unfoldable pub get_score : ℕ → String → States → Option F
  get_score netuid hotkey states = quality (lookup (netuid, hotkey) states)

  -- The dict that the comprehension of `get_scores` fills, entry after entry.
  abbrev pub collect : ℕ → Dict String F → States → Dict String F
  collect netuid found [] = found
  collect netuid found (((net, hk), state) ∷ states) =
      collect netuid (if nat_beq net netuid then insert hk state.quality_score found else found)
        states

  unfoldable pub get_scores : ℕ → States → Dict String F
  get_scores netuid states = collect netuid [] states

  -- `float` of a count is exact below 2^53.
  abbrev pub avg_latency : MinerState → F
  avg_latency state =
      if ltb 0 state.total_requests
      then div state.latency_sum_ms (decimal state.total_requests 0)
      else zero

  abbrev pub details_of : MinerState → MinerQualityScore
  details_of state = record {
    miner_uid = state.miner_uid;
    hotkey = state.hotkey;
    netuid = state.netuid;
    quality_score = state.quality_score;
    total_requests = state.total_requests;
    successful_requests = state.successful_requests;
    avg_latency_ms = avg_latency state;
    last_updated = state.last_updated;
  }

  unfoldable pub get_miner_details : ℕ → States → List MinerQualityScore
  get_miner_details netuid [] = []
  get_miner_details netuid (((net, hk), state) ∷ states) =
      let rest = get_miner_details netuid states in
      if nat_beq net netuid then details_of state ∷ rest else rest

  abbrev pub reset_counters : MinerState → MinerState
  reset_counters state = record state {
    total_requests = 0;
    successful_requests = 0;
    latency_sum_ms = zero;
  }

  unfoldable pub get_snapshot_and_reset : States → List MinerQualityScore × States
  get_snapshot_and_reset [] = ([], [])
  get_snapshot_and_reset ((k, state) ∷ states) =
      let (snapshot, states') = get_snapshot_and_reset states in
      (details_of state ∷ snapshot, (k, reset_counters state) ∷ states')
