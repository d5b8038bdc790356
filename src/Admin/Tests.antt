-- ===== src/Admin/Tests.antt =====
-- What operators see of two subnets: the metrics of a day, the developers and the miners.
use tao_gateway.Base.{
  ℕ, ◌+◌, ◌*◌, ◌≡◌, refl, String, none, some, List, [], ◌∷◌, length, keep, map, ltb,
}
use tao_gateway.Base.Int.{pos}
use tao_gateway.Base.Dict.{Dict}
use tao_gateway.Base.Sums.{sum_by}
use tao_gateway.Base.Sorting.{IsSorted}
use tao_gateway.Routing.Float.Fixed.{fixed}
use tao_gateway.Routing.Metagraph.{Subnets, is_stale, get_metagraph}
use tao_gateway.Routing.Scorer.{States, get_miner_details}
use tao_gateway.Usage.{UsageRecord}
use tao_gateway.Usage.Aggregation.{Store, day_us, is_error}
use tao_gateway.Admin.Metrics.{
  last_24h, start_of, put_rows, add_today, subnet_data, netuid_le, get_system_metrics,
}
use tao_gateway.Admin.Metrics.Totals.{HasNames, live_of, days_of, get_system_metrics-IsTotal}
use tao_gateway.Admin.Developers.{Developer, set_counts, get_developer_metrics}
use tao_gateway.Admin.Metagraph.{SyncStatus, healthy, SubnetMetagraphStatus, get_metagraph_response}
use tao_gateway.Admin.Miners.{MinerInfo, collect_miners, get_miners}

abbrev name : ℕ → String
name netuid = "sn1"

abbrev made : ℕ → ℕ → ℕ → UsageRecord
made netuid code created_at = record {
  id = 1;
  api_key_id = 7;
  org_id = 3;
  subnet_name = "sn1";
  netuid = netuid;
  endpoint = "/v1/chat/completions";
  miner_uid = none;
  latency_ms = 40;
  status_code = code;
  prompt_tokens = 0;
  completion_tokens = 0;
  total_tokens = 0;
  created_at = created_at;
}

-- Today is the day 22, at one minute past midnight.
abbrev now : ℕ
now = 22 * day_us + 60_000_000

abbrev tables : Store
tables = record {
  usage_records =
      made 19 200 (22 * day_us + 5)
      ∷ made 1 502 (22 * day_us + 9)
      ∷ made 1 200 (22 * day_us + 11)
      ∷ [];
  summaries =
      (
        record { api_key_id = 7; netuid = 1; summary_date = 21 },
        record {
          org_id = 3;
          subnet_name = "sn1";
          request_count = 4;
          success_count = 4;
          error_count = 0;
          p50_latency_ms = 30;
          p95_latency_ms = 50;
          p99_latency_ms = 60;
          total_prompt_tokens = 0;
          total_completion_tokens = 0;
        },
      )
      ∷ [];
}

abbrev mean : List ℕ → ℕ
mean l = 0

abbrev percentile : ℕ → List ℕ → ℕ
percentile p l = 40

abbrev unrounded : ℕ → ℕ → ℕ
unrounded k a = a

totals :
    let m = get_system_metrics fixed mean percentile unrounded last_24h now tables in
    let shown : ℕ × ℕ × List ℕ =
      (m.total_requests, m.total_errors, map (λ u. u.request_count) m.subnets) in
    shown ≡ (7, 1, 6 ∷ 1 ∷ [])
unfolding get_system_metrics subnet_data put_rows add_today start_of
totals = refl

tables-HasNames : HasNames name tables
tables-HasNames = ((refl, (refl, (refl, tt))), (refl, tt))

get_system_metrics-IsTotal_example :
    let m = get_system_metrics fixed mean percentile unrounded last_24h now tables in
    let live = live_of last_24h now tables.usage_records in
    let days = days_of last_24h now tables.summaries in
    (m.total_requests ≡ sum_by (λ d. d.1.request_count) days + length live)
    × (m.total_errors ≡ sum_by (λ d. d.1.error_count) days + length (keep is_error live))
    × (sum_by (λ u. u.request_count) m.subnets ≡ m.total_requests)
    × (sum_by (λ u. u.error_count) m.subnets ≡ m.total_errors)
    × IsSorted (netuid_le fixed mean percentile unrounded) m.subnets
get_system_metrics-IsTotal_example =
    get_system_metrics-IsTotal fixed mean percentile unrounded name last_24h now tables
      tables-HasNames

abbrev orgs : List Developer
orgs =
    record { id = 3; email = "a@b.org"; created_at = 20 * day_us }
    ∷ record { id = 4; email = "c@b.org"; created_at = 22 * day_us + 7 }
    ∷ []

abbrev isoformat : ℕ → String
isoformat t = "2026-03-01T00:00:00+00:00"

developers_shown :
    let d = get_developer_metrics isoformat now 50 0 orgs tables.usage_records in
    let shown : ℕ × ℕ × List (Dict String ℕ) = (
      d.new_signups_today,
      d.weekly_active_developers,
      map (λ s. s.requests_by_subnet) d.developers,
    ) in
    shown ≡ (1, 1, [] ∷ (("sn1", 3) ∷ []) ∷ [])
unfolding get_developer_metrics set_counts
developers_shown = refl

abbrev subnets : Subnets (List ℕ)
subnets =
    (
      22,
      record {
        netuid = 22;
        metagraph = some (5 ∷ 0 ∷ 3 ∷ []);
        last_sync_time = 900;
        last_sync_mono = pos 900;
        last_sync_error = none;
        consecutive_failures = 0;
        staleness_threshold = 300_000_000;
        sync_generation = 1;
      },
    )
    ∷ []

abbrev statuses_of : SubnetMetagraphStatus → SyncStatus × ℕ
statuses_of s = (s.sync_status, s.active_miners)

metagraph_shown :
    map statuses_of (
      get_metagraph_response
        (List ℕ)
        ℕ
        (λ m. length m)
        (λ m. some m)
        (ltb 0)
        isoformat
        (some subnets)
        1000)
    ≡ ((healthy, 2) ∷ [])
unfolding get_metagraph_response is_stale
metagraph_shown = refl

abbrev states : States fixed
states =
    (
      (22, "hk-one-of-a-miner"),
      record {
        miner_uid = 2;
        hotkey = "hk-one-of-a-miner";
        netuid = 22;
        quality_score = 700_000_000;
        total_requests = 4;
        successful_requests = 3;
        latency_sum_ms = 0;
        last_updated = 8;
      },
    )
    ∷ []

abbrev in_short : String × List (MinerInfo fixed (List ℕ) (λ m. m) unrounded) → List (ℕ × ℕ)
in_short e = map (λ m. (m.incentive_score, m.error_rate)) e.1

miners_shown :
    map in_short (get_miners fixed (List ℕ) (λ m. m) unrounded (some states) (some subnets) none)
    ≡ (((3, 250_000_000) ∷ []) ∷ [])
unfolding get_miners collect_miners get_miner_details get_metagraph
miners_shown = refl
