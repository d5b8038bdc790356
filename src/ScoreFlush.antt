-- ===== src/ScoreFlush.antt =====
-- gateway/tasks/score_flush.py: the task that writes the scores to the table miner_scores, which has
-- one row to a miner of a subnet. Times are whole microseconds. The logging is left out.
pub mod Totals
mod Tests
use tao_gateway.Base.{
  ℕ, ◌+◌, ◌-◌, String, Bool, true, false, not, Option, none, some, List, [], ◌∷◌, keep, ltb,
  nat_beq, if◌then◌else◌, pair_eq,
}
use tao_gateway.Base.Dict.{Dict, lookup, insert}
use tao_gateway.Routing.Float.{Floats}
use tao_gateway.Routing.Scorer.{MinerQualityScore, States, get_snapshot_and_reset}

module _ (x : Floats) where
  -- A row, without the columns of its key.
  pub record MinerScore : Type 0 where
    pub miner_uid : ℕ
    pub quality_score : x.F
    pub total_requests : ℕ
    pub successful_requests : ℕ
    pub avg_latency_ms : x.F
    pub updated_at : ℕ

  abbrev pub Table : Type 0
  Table = Dict (ℕ × String) MinerScore

  -- The row that INSERT … ON CONFLICT DO UPDATE leaves; a new row has the time of its insertion.
  abbrev pub merged : ℕ → MinerQualityScore x → Option MinerScore → MinerScore
  merged now q none = record {
    miner_uid = q.miner_uid;
    quality_score = q.quality_score;
    total_requests = q.total_requests;
    successful_requests = q.successful_requests;
    avg_latency_ms = q.avg_latency_ms;
    updated_at = now;
  }
  merged now q (some row) = record row {
    quality_score = q.quality_score;
    total_requests = row.total_requests + q.total_requests;
    successful_requests = row.successful_requests + q.successful_requests;
    avg_latency_ms = q.avg_latency_ms;
    updated_at = now;
  }

  abbrev pub upsert : ℕ → MinerQualityScore x → Table → Table
  upsert now q table =
      let k : ℕ × String = (q.netuid, q.hotkey) in insert k (merged now q (lookup k table)) table

  -- The loop over the snapshot; a miner without new observations is left out.
  unfoldable pub write_scores : ℕ → List (MinerQualityScore x) → Table → Table
  write_scores now [] table = table
  write_scores now (q ∷ snapshot) table =
      write_scores now snapshot (if nat_beq q.total_requests 0 then table else upsert now q table)

  abbrev pub is_retained : ℕ → ℕ → (ℕ × String) × MinerScore → Bool
  is_retained now retention e = not (ltb (e.1.updated_at + retention) now)

  -- `flush_once`, at one time `now`; the first argument is whether the session commits.
  unfoldable pub flush_once : Bool → ℕ → ℕ → States x × Table → States x × Table
  flush_once commits now retention (states, table) =
      let (snapshot, states') = get_snapshot_and_reset x states in
      (
        states',
        if commits
            then keep (is_retained now retention) (write_scores now snapshot table)
            else table,
      )

  pub record Task : Type 0 where
    pub is_running : Bool
    pub states : States x
    pub table : Table

  abbrev flushed : Bool → ℕ → ℕ → Task → Task
  flushed commits now retention task =
      let (states', table') = flush_once commits now retention (task.states, task.table) in
      record task { states = states'; table = table' }

  -- `start`, one round of `_flush_loop` (an exception of the flush is only logged), and `stop`, which
  -- flushes once more, also where the task was never started.
  unfoldable pub start_task : Task → Task
  start_task task = record task { is_running = true }

  unfoldable pub flush_round : Bool → ℕ → ℕ → Task → Task
  flush_round commits now retention task =
      if task.is_running then flushed commits now retention task else task

  unfoldable pub stop_task : Bool → ℕ → ℕ → Task → Task
  stop_task commits now retention task = record (flushed commits now retention task) {
    is_running = false;
  }
