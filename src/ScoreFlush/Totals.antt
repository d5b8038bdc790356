-- ===== src/ScoreFlush/Totals.antt =====
-- What a flush moves from the scorer to the table.
use tao_gateway.Base.{
  ℕ, ◌+◌, ◌≡◌, refl, ◌≢◌, ◌⊎◌, inl, inr, String, true, false, Option, none, some, [], ◌∷◌, arith,
  keep, pair_eq, pair_beq_iff,
}
use tao_gateway.Base.Dict.{lookup, lookup-insert}
use tao_gateway.Routing.Float.{Floats}
use tao_gateway.Routing.Scorer.{MinerQualityScore, States, get_snapshot_and_reset, details_of}
use tao_gateway.Routing.Scorer.Snapshot.{IsSound}
use tao_gateway.Routing.Scorer.Reports.{pending, pending-flush}
use tao_gateway.ScoreFlush.{
  MinerScore, Table, merged, upsert, write_scores, is_retained, flush_once,
}

module _ (x : Floats) where
  -- The requests that a row counts.
  abbrev pub total_of : Option (MinerScore x) → ℕ
  total_of none = 0
  total_of (some row) = row.total_requests

  abbrev IsUpdated : ℕ → Option (MinerScore x) → Type 0
  IsUpdated now o = (row : MinerScore x) × (o ≡ some row) × (row.updated_at ≡ now)

  abbrev written : ℕ → States x → Table x → Table x
  written now states table = write_scores x now (get_snapshot_and_reset x states).0 table

  total-merged :
      (now : ℕ) (q : MinerQualityScore x) (o : Option (MinerScore x))
      → (merged x now q o).total_requests ≡ total_of o + q.total_requests
  total-merged now q none = omega arith
  total-merged now q (some row) = omega arith

  updated-merged :
      (now : ℕ) (q : MinerQualityScore x) (o : Option (MinerScore x))
      → (merged x now q o).updated_at ≡ now
  updated-merged now q none = refl
  updated-merged now q (some row) = refl

  -- A miner that is not in the snapshot keeps its row.
  written-absent :
      (now : ℕ) (k : ℕ × String) (states : States x) (table : Table x)
      → IsSound x states
      → lookup k states ≡ none
      → lookup k (written now states table) ≡ lookup k table
  unfolding write_scores get_snapshot_and_reset
  written-absent now k [] table s h = refl
  written-absent now k ((j, state) ∷ states) table s h =
      let q = details_of x state in
      let key : ℕ × String = (state.netuid, state.hotkey) in
      ground (
        arith,
        s.1.0.keyed,
        pair_beq_iff j k,
        lookup-insert key k (merged x now q (lookup key table)) table,
        written-absent now k states table (s.0.1, s.1.1),
        written-absent now k states (upsert x now q table) (s.0.1, s.1.1),
      )

  written-total :
      (now : ℕ) (k : ℕ × String) (states : States x) (table : Table x)
      → IsSound x states
      → total_of (lookup k (written now states table))
        ≡ total_of (lookup k table) + pending x (lookup k states)
  unfolding write_scores get_snapshot_and_reset
  written-total now k [] table s = omega arith
  written-total now k ((j, state) ∷ states) table s =
      let q = details_of x state in
      let key : ℕ × String = (state.netuid, state.hotkey) in
      ground (
        arith,
        s.1.0.keyed,
        s.0.0,
        pair_beq_iff j k,
        lookup-insert key k (merged x now q (lookup key table)) table,
        total-merged now q (lookup key table),
        written-total now k states table (s.0.1, s.1.1),
        written-total now k states (upsert x now q table) (s.0.1, s.1.1),
      )

  -- The time of the last write of a row.
  abbrev time_of : Option (MinerScore x) → Option ℕ
  time_of none = none
  time_of (some row) = some row.updated_at

  written-time :
      (now : ℕ) (k : ℕ × String) (states : States x) (table : Table x)
      → IsSound x states
      → (pending x (lookup k states) ≡ 0)
        ⊎ (time_of (lookup k (written now states table)) ≡ some now)
  unfolding write_scores get_snapshot_and_reset
  written-time now k [] table s = inl refl
  written-time now k ((j, state) ∷ states) table s =
      let q = details_of x state in
      let key : ℕ × String = (state.netuid, state.hotkey) in
      ground (
        arith,
        s.1.0.keyed,
        s.0.0,
        pair_beq_iff j k,
        lookup-insert key k (merged x now q (lookup key table)) table,
        updated-merged now q (lookup key table),
        written-absent now k states (upsert x now q table) (s.0.1, s.1.1),
        written-time now k states table (s.0.1, s.1.1),
        written-time now k states (upsert x now q table) (s.0.1, s.1.1),
      )

  keep-finds :
      (now retention : ℕ) (k : ℕ × String) (table : Table x)
      → time_of (lookup k table) ≡ some now
      → lookup k (keep (is_retained x now retention) table) ≡ lookup k table
  keep-finds now retention k [] h = refl
  keep-finds now retention k ((j, row) ∷ table) h = ground (arith, keep-finds now retention k table)

  -- From sound states, a flush that commits moves the requests of each miner with new observations
  -- to its row, which stays in the table; no flush leaves any to be reported in the scorer; and one
  -- that fails to commit leaves the table as it is, so that these requests are lost.
  pub flush_once_lem :
      (now retention : ℕ) (k : ℕ × String) (states : States x) (table : Table x)
      → IsSound x states
      → pending x (lookup k states) ≢ 0
      → let (states', table') = flush_once x true now retention (states, table) in
        let (lost, same) = flush_once x false now retention (states, table) in
        (total_of (lookup k table') ≡ total_of (lookup k table) + pending x (lookup k states))
        × (pending x (lookup k states') ≡ 0)
        × (pending x (lookup k lost) ≡ 0)
        × (same ≡ table)
  unfolding flush_once
  flush_once_lem now retention k states table s p =
      let all = written now states table in
      let kept : time_of (lookup k all) ≡ some now = (elim (written-time now k states table s) [
        | inl z ↦ absurd (p z)
        | inr t ↦ t
      ]) in
      (
        rw (keep-finds now retention k all kept) (written-total now k states table s),
        pending-flush x k states,
        pending-flush x k states,
        refl,
      )
