-- ===== src/Routing/Metagraph.antt =====
-- gateway/routing/metagraph_sync.py: the metagraph of each subnet. `M` is the class bt.Metagraph;
-- times are whole microseconds, and the monotonic clock is never negative.
pub mod Sync
use tao_gateway.Base.{
  ℕ, suc, ◌+◌, String, Bool, true, false, Option, none, some, List, [], ◌∷◌, ltb, nat_eq,
}
use tao_gateway.Base.Int.{ℤ, pos, negsuc}
use tao_gateway.Base.Dict.{Dict, lookup, insert}

abbrev pub default_staleness : ℕ
default_staleness = 300_000_000

module _ (M : Type 0) where
  pub record SubnetMetagraphState : Type 0 where
    pub netuid : ℕ
    pub metagraph : Option M
    pub last_sync_time : ℕ
    pub last_sync_mono : ℤ
    pub last_sync_error : Option String
    pub consecutive_failures : ℕ
    pub staleness_threshold : ℕ
    pub sync_generation : ℕ

  abbrev pub new_state : ℕ → SubnetMetagraphState
  new_state netuid = record {
    netuid = netuid;
    metagraph = none;
    last_sync_time = 0;
    last_sync_mono = negsuc 999_999;
    last_sync_error = none;
    consecutive_failures = 0;
    staleness_threshold = default_staleness;
    sync_generation = 0;
  }

  abbrev pub is_past : ℕ → ℤ → ℕ → Bool
  is_past now (negsuc n) threshold = true
  is_past now (pos t) threshold = ltb (t + threshold) now

  unfoldable pub is_stale : ℕ → SubnetMetagraphState → Bool
  is_stale now state = elim state.metagraph [
    | none ↦ true
    | some m ↦ is_past now state.last_sync_mono state.staleness_threshold
  ]

  -- How the call of the subtensor ends: with a metagraph and the two clocks read after it, or by an
  -- exception (a timeout among them) of the given text. The log call after it does not raise.
  pub data Fetch : Type 0 where
    fetched : M → ℕ → ℕ → Fetch
    failed : String → Fetch

  -- `_sync_subnet`
  unfoldable pub sync_subnet : Fetch → SubnetMetagraphState → SubnetMetagraphState
  sync_subnet (fetched m time mono) state = record state {
    metagraph = some m;
    last_sync_time = time;
    last_sync_mono = pos mono;
    last_sync_error = none;
    consecutive_failures = 0;
    sync_generation = state.sync_generation + 1;
  }
  sync_subnet (failed text) state = record state {
    consecutive_failures = state.consecutive_failures + 1;
    last_sync_error = some text;
  }

  abbrev pub Subnets : Type 0
  Subnets = Dict ℕ SubnetMetagraphState

  abbrev pub register_subnet : ℕ → Subnets → Subnets
  register_subnet netuid subnets = insert netuid (new_state netuid) subnets

  abbrev pub get_state : ℕ → Subnets → Option SubnetMetagraphState
  get_state netuid subnets = lookup netuid subnets

  unfoldable pub get_metagraph : ℕ → Subnets → Option M
  get_metagraph netuid subnets = elim (lookup netuid subnets) [
    | none ↦ none
    | some state ↦ state.metagraph
  ]

  -- `sync_all`: the calls of `_sync_subnet` share no state, so their order does not matter.
  unfoldable pub sync_all : (ℕ → Fetch) → Subnets → Subnets
  unfolding sync_subnet
  sync_all fetch [] = []
  sync_all fetch ((netuid, state) ∷ subnets) =
      (netuid, sync_subnet (fetch netuid) state) ∷ sync_all fetch subnets

  -- The background loop: not there yet, sleeping between two syncs, or cancelled.
  pub data SyncTask : Type 0 where
    absent running cancelled : SyncTask

  pub record MetagraphManager : Type 0 where
    pub subnets : Subnets
    pub sync_task : SyncTask
    pub executor_open : Bool

  unfoldable pub start : (ℕ → Fetch) → MetagraphManager → MetagraphManager
  start fetch manager = record manager {
    subnets = sync_all fetch manager.subnets;
    sync_task = running;
  }

  -- One round of `_sync_loop`.
  unfoldable pub sync_loop : (ℕ → Fetch) → MetagraphManager → MetagraphManager
  sync_loop fetch manager = elim manager.sync_task [
    | running ↦ record manager { subnets = sync_all fetch manager.subnets }
    | _ ↦ manager
  ]

  unfoldable pub stop : MetagraphManager → MetagraphManager
  stop manager = elim manager.sync_task [
    | running ↦ record manager { sync_task = cancelled; executor_open = false }
    | _ ↦ record manager { executor_open = false }
  ]
