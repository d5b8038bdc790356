-- ===== src/Routing/Tests.antt =====
-- The routing at concrete values, in an arithmetic with nine decimal places.
use tao_gateway.Base.{
  ℕ, ◌+◌, ◌≡◌, refl, inl, String, Bool, true, false, Option, none, some, List, [], ◌∷◌, ltb,
  string_eq, nat_eq, pair_eq, if◌then◌else◌, ◌==◌,
}
use mathlib.Core.Option
use tao_gateway.Base.Dict.{Dict, lookup, insert}
use tao_gateway.Routing.Float.{IsUnit}
use tao_gateway.Routing.Float.Fixed.{fixed}
use tao_gateway.Routing.Scorer.{
  ScoreObservation, Config, States, compute_observation_score, record_observation, get_score,
  get_snapshot_and_reset,
}
use tao_gateway.Routing.Scorer.Snapshot.{Op, observe, flush, run}
use tao_gateway.Routing.Scorer.Reports.{reported, pending, reported-run}
use tao_gateway.Routing.Metagraph.{
  Fetch, fetched, failed, new_state, sync_subnet, sync_all, Subnets,
}
use tao_gateway.Routing.Metagraph.Sync.{IsHealthy, lookup-sync_all}
use tao_gateway.Routing.Selector.{Neuron, Metagraph, Entry}
use tao_gateway.Routing.Selector.Weights.{Choice}
use tao_gateway.Routing.Selector.Cache.{
  Routing, Step, IsReachable, select, IsAnswer, select_miner-IsAnswer,
}

abbrev config : Config fixed
config = record { ema_alpha = 300_000_000; subnet_timeouts = [] }

-- Three seconds of thirty.
abbrev good : ScoreObservation fixed
good = record {
  miner_uid = 7;
  hotkey = "hk7";
  netuid = 1;
  success = true;
  latency_ms = 3_000_000_000_000;
  response_valid = true;
  response_complete = none;
  timestamp = 100;
}

-- A failure that took all of the time.
abbrev bad : ScoreObservation fixed
bad = record good {
  success = false;
  latency_ms = 40_000_000_000_000;
  response_valid = false;
  response_complete = some false;
}

scores_good : compute_observation_score fixed config good ≡ 970_000_000
unfolding compute_observation_score
scores_good = refl

abbrev ops : List (Op fixed)
ops = observe good ∷ observe bad ∷ flush ∷ observe bad ∷ []

scores_after : get_score fixed 1 "hk7" (run fixed config ops []).1 ≡ some 475_300_000
unfolding get_score run record_observation compute_observation_score get_snapshot_and_reset
scores_after = refl

config-IsUnit : IsUnit fixed config.ema_alpha
config-IsUnit = record { nonneg = refl; le_one = refl }

reported-run_example :
    let (snapshots, end) = run fixed config ops [] in
    reported fixed (1, "hk7") snapshots + pending fixed (lookup (1, "hk7") end) ≡ 0 + 3
reported-run_example =
    reported-run fixed config (1, "hk7") ops [] config-IsUnit (refl, (refl, (tt, (refl, tt))))
      (tt, tt)

abbrev one_state : States fixed
one_state =
    (
      (1, "hk7"),
      record {
        miner_uid = 7;
        hotkey = "hk7";
        netuid = 1;
        quality_score = 970_000_000;
        total_requests = 4;
        successful_requests = 3;
        latency_sum_ms = 9_000_000_000_000;
        last_updated = 100;
      },
    )
    ∷ []

new-IsHealthy : IsHealthy ℕ (new_state ℕ 19)
new-IsHealthy = record { error = inl (refl, refl); synced = inl (refl, refl, refl) }

abbrev fetch : ℕ → Fetch ℕ
fetch netuid = if ltb netuid 10 then fetched 5 1000 2000 else failed "timeout"

abbrev two_subnets : Subnets ℕ
two_subnets = (1, new_state ℕ 1) ∷ (19, new_state ℕ 19) ∷ []

lookup-sync_all_example :
    lookup 19 (sync_all ℕ fetch two_subnets)
    ≡ Option.map (sync_subnet ℕ (fetch 19)) (lookup 19 two_subnets)
lookup-sync_all_example = lookup-sync_all ℕ fetch 19 two_subnets

abbrev is_global : String → Option Bool
is_global ip = if ip == "8.8.8.8" then some true else some false

abbrev neuron : ℕ → ℕ → String → Neuron fixed
neuron incentive stake ip = record {
  incentive = incentive;
  stake = stake;
  axon = record { ip = ip; port = 8091; hotkey = "hk" };
}

-- A miner without incentive, two that pass, and one with a private address.
abbrev metagraph : Metagraph fixed
metagraph =
    neuron 0 5 "8.8.8.8"
    ∷ neuron 100 5 "8.8.8.8"
    ∷ neuron 300 5 "8.8.8.8"
    ∷ neuron 900 5 "10.0.0.1"
    ∷ []

abbrev scores : Dict String ℕ
scores = ("hk", 500_000_000) ∷ []

abbrev the_first : List (Entry fixed) → List ℕ → Option (Entry fixed)
the_first [] ws = none
the_first (e ∷ l) ws = some e

abbrev choice : Choice fixed
choice = record { choices = the_first; choices_gives = λ e l ws n p. (0, e, refl, refl) }

-- Subnet 1 is registered, synced, and asked for a miner.
abbrev registered : Routing fixed is_global choice 300_000_000
registered = record { subnets = (1, new_state (Metagraph fixed) 1) ∷ []; cache = [] }

abbrev synced : Routing fixed is_global choice 300_000_000
synced = record {
  subnets =
      insert 1
        (sync_subnet (Metagraph fixed) (fetched metagraph 1000 2000)
          (new_state (Metagraph fixed) 1))
        registered.subnets;
  cache = [];
}

synced-IsReachable : IsReachable fixed is_global choice 300_000_000 synced
synced-IsReachable =
    IsReachable.after (IsReachable.after IsReachable.at_start (Step.registers 1 _ refl))
      (Step.syncs 1 (new_state (Metagraph fixed) 1) (fetched metagraph 1000 2000) _ refl)

select_miner-IsAnswer_example :
    IsAnswer fixed is_global choice 300_000_000 synced.subnets 1
      (select fixed is_global choice 300_000_000 1 none synced).0
select_miner-IsAnswer_example =
    select_miner-IsAnswer fixed is_global choice 300_000_000 1 none synced synced-IsReachable
