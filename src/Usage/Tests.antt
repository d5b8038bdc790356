-- ===== src/Usage/Tests.antt =====
-- A month of records, its summaries and quotas.
use Prim.Native.String.{count}
use tao_gateway.Base.{
  ℕ, ◌+◌, ◌*◌, ◌≤◌, ◌≡◌, refl, String, true, none, some, List, [], ◌∷◌, map, All, arith, ltb,
  nat_beq, if◌then◌else◌,
}
use tao_gateway.Base.Dict.{lookup}
use tao_gateway.Base.Sums.{sum_by}
use tao_gateway.Usage.{UsageRecord, truncate_content}
use tao_gateway.Usage.Aggregation.{
  SummaryKey, Store, Run, day_us, run_once, aggregate_day, upsert_all, cleanup_old_records,
  summary_eq,
}
use tao_gateway.Usage.Aggregation.Runs.{runs, covered, IsSound, summary_after, runs_lem}
use tao_gateway.Usage.Quota.{SubnetQuota, add_counts, get_quota_status}
use tao_gateway.Usage.Quota.Count.{IsRight, get_quota_status-IsRight}
use tao_gateway.Usage.Summaries.{UsageSummary, empty_summary, aggregate_to_monthly}
use tao_gateway.Usage.Summaries.Monthly.{IsMonth, aggregate_to_monthly_lem}

-- A request of the key 7 of the organisation 3 on a day, at noon.
abbrev request : ℕ → ℕ → UsageRecord
request id date = record {
  id = id;
  api_key_id = 7;
  org_id = 3;
  subnet_name = "sn1";
  netuid = 1;
  endpoint = "/v1/chat/completions";
  miner_uid = none;
  latency_ms = 40;
  status_code = 200;
  prompt_tokens = 2;
  completion_tokens = 5;
  total_tokens = 7;
  created_at = date * day_us + 43_200_000_000;
}

abbrev first_latency : ℕ → List ℕ → ℕ
first_latency p [] = 0
first_latency p (n ∷ l) = n

-- The first of the month is the day 20; today is the day 22.
abbrev records : List UsageRecord
records =
    request 1 19 ∷ request 2 20 ∷ request 3 20 ∷ request 4 21 ∷ request 5 22 ∷ request 6 22 ∷ []

abbrev run_on : ℕ → Run
run_on date = record {
  now = date * day_us + 60;
  later = date * day_us + 61;
  commits = true;
  deletes = true;
}

-- The run of the day 21 happens twice.
abbrev past : List Run
past = run_on 21 ∷ run_on 21 ∷ run_on 22 ∷ []

abbrev before_runs : Store
before_runs = record { usage_records = records; summaries = [] }

abbrev owner : ℕ → ℕ
owner key = 3

abbrev name : ℕ → String
name netuid = "sn1"

abbrev month_start : ℕ → ℕ
month_start date = 20

past_within : All (λ (run : Run). run.later ≤ (20 + 90) * day_us) past
past_within = omega arith

before_runs-IsSound : IsSound first_latency owner name 20 90 records before_runs
before_runs-IsSound = record {
  named = (
    (refl, refl),
    ((refl, refl), ((refl, refl), ((refl, refl), ((refl, refl), ((refl, refl), tt))))),
  );
  named_rows = tt;
  unique = tt;
  kept = refl;
}

abbrev sn1_on : ℕ → SummaryKey
sn1_on date = record { api_key_id = 7; netuid = 1; summary_date = date }

runs_lem_example :
    IsSound first_latency owner name 20 90 records (runs first_latency 90 past before_runs)
    × (lookup (sn1_on 20) (runs first_latency 90 past before_runs).summaries
        ≡ summary_after first_latency owner name 20 90 records past (sn1_on 20) none)
runs_lem_example =
    runs_lem first_latency owner name 20 90 past (sn1_on 20) before_runs records past_within
      before_runs-IsSound (omega arith)

-- Each day from the first on is aggregated exactly where it is before today.
past_covers : (date : ℕ) → 20 ≤ date → covered past date ≡ ltb date 22
past_covers date h = ground arith

get_quota_status-IsRight_example :
    All
      (IsRight 3 20 22 records)
      (get_quota_status month_start 3 22 (runs first_latency 90 past before_runs))
get_quota_status-IsRight_example =
    get_quota_status-IsRight first_latency owner name month_start 90 22 3 past before_runs
      (omega arith) past_within before_runs-IsSound tt past_covers

-- Five requests of this month: three in summaries, and two of today.
used :
    map
      (λ (q : SubnetQuota). q.monthly_used)
      (get_quota_status month_start 3 22 (runs first_latency 90 past before_runs))
    ≡ 5 ∷ 0 ∷ 0 ∷ []
unfolding get_quota_status runs run_once aggregate_day cleanup_old_records upsert_all add_counts
used = refl

-- With no run on the day 22, the day 21 is missing.
used_late :
    map
      (λ (q : SubnetQuota). q.monthly_used)
      (get_quota_status month_start 3 22 (runs first_latency 90 (run_on 21 ∷ []) before_runs))
    ≡ 4 ∷ 0 ∷ 0 ∷ []
unfolding get_quota_status runs run_once aggregate_day cleanup_old_records upsert_all add_counts
used_late = refl

abbrev day_of : String → ℕ → UsageSummary
day_of period n = record (empty_summary period) {
  request_count = n;
  success_count = n;
  p50_latency_ms = 10 * n;
}

abbrev days : List UsageSummary
days = day_of "2026-02-27" 4 ∷ day_of "2026-03-01" 2 ∷ day_of "2026-02-28" 1 ∷ []

aggregate_to_monthly_lem_example :
    let months = aggregate_to_monthly days in
    All (IsMonth days) months
    × (sum_by (λ s. s.request_count) months ≡ sum_by (λ s. s.request_count) days)
    × (sum_by (λ s. s.success_count) months ≡ sum_by (λ s. s.success_count) days)
    × (sum_by (λ s. s.error_count) months ≡ sum_by (λ s. s.error_count) days)
    × (sum_by (λ s. s.total_prompt_tokens) months ≡ sum_by (λ s. s.total_prompt_tokens) days)
    × (sum_by (λ s. s.total_completion_tokens) months
        ≡ sum_by (λ s. s.total_completion_tokens) days)
aggregate_to_monthly_lem_example = aggregate_to_monthly_lem days

abbrev redact : String → String
redact s = if nat_beq (count s) 5 then "****" else s

truncated : truncate_content redact (some "token") ≡ some "****"
unfolding truncate_content
truncated = refl
