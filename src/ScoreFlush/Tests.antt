-- ===== src/ScoreFlush/Tests.antt =====
-- A flush at concrete scores.
use tao_gateway.Base.{◌+◌, ◌≡◌, refl, ◌≢◌, true, false, [], ◌∷◌, arith, pair_eq}
use tao_gateway.Base.Dict.{lookup}
use tao_gateway.Routing.Float.Fixed.{fixed}
use tao_gateway.Routing.Scorer.{States, get_snapshot_and_reset}
use tao_gateway.Routing.Scorer.Snapshot.{IsSound}
use tao_gateway.Routing.Scorer.Reports.{pending}
use tao_gateway.ScoreFlush.{Table, flush_once, write_scores}
use tao_gateway.ScoreFlush.Totals.{total_of, flush_once_lem}

abbrev states : States fixed
states =
    (
      (1, "hk7"),
      record {
        miner_uid = 7;
        hotkey = "hk7";
        netuid = 1;
        quality_score = 970_000_000;
        total_requests = 4;
        successful_requests = 3;
        latency_sum_ms = 9_000_000_000_000;
        last_updated = 100;
      },
    )
    ∷ []

abbrev table : Table fixed
table =
    (
      (1, "hk7"),
      record {
        miner_uid = 7;
        quality_score = 0;
        total_requests = 10;
        successful_requests = 9;
        avg_latency_ms = 0;
        updated_at = 5;
      },
    )
    ∷ (
      (1, "hk8"),
      record {
        miner_uid = 8;
        quality_score = 0;
        total_requests = 1;
        successful_requests = 1;
        avg_latency_ms = 0;
        updated_at = 5;
      },
    )
    ∷ []

-- The other row is past its retention.
flushes : total_of fixed (lookup (1, "hk8") (flush_once fixed true 500 100 (states, table)).1) ≡ 0
unfolding flush_once write_scores get_snapshot_and_reset
flushes = refl

states-IsSound : IsSound fixed states
states-IsSound = (
  (refl, tt),
  (
    record { keyed = refl; score = record { nonneg = refl; le_one = refl }; counts = omega arith },
    tt,
  ),
)

some_pending : pending fixed (lookup (1, "hk7") states) ≢ 0
some_pending e = omega (arith, e)

flush_once_lem_example :
    let (states', table') = flush_once fixed true 500 100 (states, table) in
    let (lost, same) = flush_once fixed false 500 100 (states, table) in
    (total_of fixed (lookup (1, "hk7") table')
      ≡ total_of fixed (lookup (1, "hk7") table) + pending fixed (lookup (1, "hk7") states))
    × (pending fixed (lookup (1, "hk7") states') ≡ 0)
    × (pending fixed (lookup (1, "hk7") lost) ≡ 0)
    × (same ≡ table)
flush_once_lem_example =
    flush_once_lem fixed 500 100 (1, "hk7") states table states-IsSound some_pending
