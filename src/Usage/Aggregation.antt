-- ===== src/Usage/Aggregation.antt =====
-- gateway/tasks/usage_aggregation.py, with the table of gateway/models/daily_usage_summary.py: the
-- task that counts the records of a day into daily summaries. `percentile` is what the database makes
-- of `COALESCE(percentile_cont(p / 100) …, 0)::int`. A date is the number of a day; the database
-- dates a time in UTC. The ids and the times of insertion of summaries, and the logging, are left out.
pub mod Days
pub mod Runs
use tao_gateway.Base.{
  ℕ, ◌+◌, ◌-◌, ◌*◌, ◌/◌, ◌%◌, String, Bool, true, false, not, ◌&&◌, Option, none, some, List, [],
  ◌∷◌, map, length, keep, ltb, leb, nat_beq, str_eq, if◌then◌else◌, Key, ◌==◌, arith, ◌↔◌, ◌≡◌,
  eq_iff,
}
use tao_gateway.Base.Dict.{Dict, lookup, insert}
use tao_gateway.Base.Grouping.{group_by}
use tao_gateway.Base.Sums.{sum_by}
use tao_gateway.Usage.{UsageRecord, is_some}

-- A summary, without the columns `api_key_id`, `netuid` and `summary_date` of the unique constraint.
pub record DailyUsageSummary : Type 0 where
  pub org_id : ℕ
  pub subnet_name : String
  pub request_count : ℕ
  pub success_count : ℕ
  pub error_count : ℕ
  pub p50_latency_ms : ℕ
  pub p95_latency_ms : ℕ
  pub p99_latency_ms : ℕ
  pub total_prompt_tokens : ℕ
  pub total_completion_tokens : ℕ

-- `(api_key_id, netuid, summary_date)`
pub record SummaryKey : Type 0 where
  pub api_key_id : ℕ
  pub netuid : ℕ
  pub summary_date : ℕ

abbrev pub summary_beq : SummaryKey → SummaryKey → Bool
summary_beq j k =
    nat_beq j.api_key_id k.api_key_id
    && (nat_beq j.netuid k.netuid && nat_beq j.summary_date k.summary_date)

pub summary_beq_iff : (j k : SummaryKey) → (summary_beq j k ≡ true) ↔ (j ≡ k)
summary_beq_iff j k = ground arith

instance abbrev pub summary_eq : Key SummaryKey
summary_eq = record { same = summary_beq; same_iff = summary_beq_iff }

-- The columns of the GROUP BY.
pub record GroupKey : Type 0 where
  pub org_id : ℕ
  pub subnet_name : String
  pub key : SummaryKey

abbrev pub group_beq : GroupKey → GroupKey → Bool
group_beq j k =
    nat_beq j.org_id k.org_id && (str_eq j.subnet_name k.subnet_name && summary_beq j.key k.key)

pub group_beq_iff : (j k : GroupKey) → (group_beq j k ≡ true) ↔ (j ≡ k)
group_beq_iff j k = ground (arith, eq_iff j.subnet_name k.subnet_name, summary_beq_iff j.key k.key)

instance abbrev pub group_eq : Key GroupKey
group_eq = record { same = group_beq; same_iff = group_beq_iff }

abbrev pub Summaries : Type 0
Summaries = Dict SummaryKey DailyUsageSummary

abbrev pub day_us : ℕ
day_us = 86_400_000_000

-- `DATE(created_at)`, and the date of a time in UTC.
abbrev pub date_of : ℕ → ℕ
date_of t = t / day_us

abbrev pub group_key : UsageRecord → GroupKey
group_key r = record {
  org_id = r.org_id;
  subnet_name = r.subnet_name;
  key = record {
    api_key_id = r.api_key_id;
    netuid = r.netuid;
    summary_date = date_of r.created_at;
  };
}

abbrev pub in_range : ℕ → ℕ → UsageRecord → Bool
in_range start end r = leb start r.created_at && ltb r.created_at end

abbrev pub is_success : UsageRecord → Bool
is_success r = leb 200 r.status_code && ltb r.status_code 400

abbrev pub is_error : UsageRecord → Bool
is_error r = leb 400 r.status_code

module _ (percentile : ℕ → List ℕ → ℕ) where
  -- A row of the query.
  abbrev pub summary_of : GroupKey × List UsageRecord → DailyUsageSummary
  summary_of (g, l) = record {
    org_id = g.org_id;
    subnet_name = g.subnet_name;
    request_count = length l;
    success_count = length (keep is_success l);
    error_count = length (keep is_error l);
    p50_latency_ms = percentile 50 (map (λ (r : UsageRecord). r.latency_ms) l);
    p95_latency_ms = percentile 95 (map (λ (r : UsageRecord). r.latency_ms) l);
    p99_latency_ms = percentile 99 (map (λ (r : UsageRecord). r.latency_ms) l);
    total_prompt_tokens = sum_by (λ (r : UsageRecord). r.prompt_tokens) l;
    total_completion_tokens = sum_by (λ (r : UsageRecord). r.completion_tokens) l;
  }

  abbrev pub row_of : GroupKey × List UsageRecord → SummaryKey × DailyUsageSummary
  row_of g = (g.0.key, summary_of g)

  -- The summary that INSERT … ON CONFLICT DO UPDATE leaves.
  abbrev pub merged : DailyUsageSummary → Option DailyUsageSummary → DailyUsageSummary
  merged new none = new
  merged new (some old) = record new { org_id = old.org_id; subnet_name = old.subnet_name }

  abbrev pub upsert : SummaryKey × DailyUsageSummary → Summaries → Summaries
  upsert (k, new) table = insert k (merged new (lookup k table)) table

  -- The loop over the rows.
  unfoldable pub upsert_all : List (SummaryKey × DailyUsageSummary) → Summaries → Summaries
  upsert_all [] table = table
  upsert_all (row ∷ rows) table = upsert_all rows (upsert row table)

  -- The query over the records from `start_of_day` until `end_of_day`.
  abbrev pub query_rows : ℕ → List UsageRecord → List (SummaryKey × DailyUsageSummary)
  query_rows start_of_day records =
      map row_of (group_by group_key (keep (in_range start_of_day (start_of_day + day_us)) records))

  -- `aggregate_day`: the summaries, and the number of rows upserted; the first argument is whether
  -- the session commits, where an exception ends the call.
  unfoldable pub aggregate_day : Bool → ℕ → List UsageRecord → Summaries → Summaries × Option ℕ
  aggregate_day commits target records table =
      let rows = query_rows (target - target % day_us) records in
      if commits then (upsert_all rows table, some (length rows)) else (table, none)

-- `cleanup_old_records`
unfoldable pub cleanup_old_records : Bool → ℕ → ℕ → List UsageRecord → List UsageRecord × Option ℕ
cleanup_old_records commits now retention_days records =
    if commits
    then (
      keep (λ (r : UsageRecord). leb (now - retention_days * day_us) r.created_at) records,
      some (
          length
            (keep (λ (r : UsageRecord). ltb r.created_at (now - retention_days * day_us)) records)),
    )
    else (records, none)

-- The tables that the task works on.
pub record Store : Type 0 where
  pub usage_records : List UsageRecord
  pub summaries : Summaries

-- What a run meets: the two reads of the clock, and whether each of its two sessions commits.
pub record Run : Type 0 where
  pub now : ℕ
  pub later : ℕ
  pub commits : Bool
  pub deletes : Bool

module _ (percentile : ℕ → List ℕ → ℕ) (retention_days : ℕ) where
  -- The rest of `run_once` after `aggregate_day`, which raises in the first case; the Boolean is
  -- whether the run returns.
  abbrev pub clean_up : Run → Store → Summaries × Option ℕ → Store × Bool
  clean_up run s (table, none) = (s, false)
  clean_up run s (table, some upserted) =
      let (records, deleted) =
        cleanup_old_records run.deletes run.later retention_days s.usage_records in
      (record { usage_records = records; summaries = table }, is_some deleted)

  unfoldable pub run_once : Run → Store → Store × Bool
  run_once run s =
      clean_up run s
        (aggregate_day percentile run.commits (run.now - day_us) s.usage_records s.summaries)

  pub record Task : Type 0 where
    pub is_running : Bool
    pub store : Store

  -- `start`, one round of `_loop` (an exception of the run is only logged), and `stop`, which runs
  -- once more, also where the task was never started.
  unfoldable pub start : Task → Task
  start task = record task { is_running = true }

  unfoldable pub loop_round : Run → Task → Task
  loop_round run task =
      if task.is_running then record task { store = (run_once run task.store).0 } else task

  unfoldable pub stop : Run → Task → Task
  stop run task = record { is_running = false; store = (run_once run task.store).0 }
