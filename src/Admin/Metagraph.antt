-- ===== src/Admin/Metagraph.antt =====
-- `get_metagraph` of gateway/api/admin.py. `M` is bt.Metagraph and `size_of` its `n`; `incentives` is
-- its `I`, where it can be read, and `is_positive` the test `float(i) > 0`. A staleness is in whole
-- microseconds, none for the -1.0 of a subnet that was never synced; its rounding is left out.
use tao_gateway.Base.{
  ℕ, ◌-◌, String, str, str_append, Bool, Option, none, some, List, [], map, length, keep, leb, ltb,
  if◌then◌else◌,
}
use tao_gateway.Base.Int.{ℤ, pos, negsuc}
use tao_gateway.Base.Sorting.{sorted}
use tao_gateway.Health.{sanitize_sync_error}
use tao_gateway.Routing.Metagraph.{SubnetMetagraphState, Subnets, is_stale}

pub data SyncStatus : Type 0 where
  healthy degraded never_synced : SyncStatus

pub record SubnetMetagraphStatus : Type 0 where
  pub netuid : ℕ
  pub subnet_name : String
  pub last_sync_time : Option String
  pub staleness : Option ℕ
  pub is_stale : Bool
  pub sync_status : SyncStatus
  pub last_sync_error : Option String
  pub consecutive_failures : ℕ
  pub active_miners : ℕ

module _ (M I : Type 0) (size_of : M → ℕ) (incentives : M → Option (List I))
    (is_positive : I → Bool) (isoformat : ℕ → String) where
  abbrev pub staleness_of : ℕ → ℤ → Option ℕ
  staleness_of now (pos t) = some (now - t)
  staleness_of now (negsuc n) = none

  abbrev pub sync_status_of : Option M → Bool → SyncStatus
  sync_status_of none stale = never_synced
  sync_status_of (some m) stale = if stale then degraded else healthy

  abbrev count_or : ℕ → Option (List I) → ℕ
  count_or n none = n
  count_or n (some l) = length (keep is_positive l)

  abbrev pub active_miners_of : Option M → ℕ
  active_miners_of none = 0
  active_miners_of (some m) = count_or (size_of m) (incentives m)

  -- One round of the loop, at the time `now` of the monotonic clock.
  abbrev pub metagraph_status : ℕ → ℕ × SubnetMetagraphState M → SubnetMetagraphStatus
  metagraph_status now (netuid, state) =
      let stale = is_stale M now state in
      record {
        netuid = netuid;
        subnet_name = str_append "sn" (str netuid);
        last_sync_time =
            if ltb 0 state.last_sync_time then some (isoformat state.last_sync_time) else none;
        staleness = staleness_of now state.last_sync_mono;
        is_stale = stale;
        sync_status = sync_status_of state.metagraph stale;
        last_sync_error = sanitize_sync_error state.last_sync_error;
        consecutive_failures = state.consecutive_failures;
        active_miners = active_miners_of state.metagraph;
      }

  abbrev pub status_le : SubnetMetagraphStatus → SubnetMetagraphStatus → Bool
  status_le a b = leb a.netuid b.netuid

  -- `get_metagraph`
  unfoldable pub get_metagraph_response : Option (Subnets M) → ℕ → List SubnetMetagraphStatus
  get_metagraph_response none now = []
  get_metagraph_response (some subnets) now = sorted status_le (map (metagraph_status now) subnets)
