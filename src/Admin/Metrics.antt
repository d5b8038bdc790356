-- ===== src/Admin/Metrics.antt =====
-- `get_system_metrics` of gateway/services/admin_service.py, over the tables of the usage. `float_avg`
-- is the database's `avg` as a float, `percentile` what `int` makes of its `percentile_cont`, and
-- `round_to` is Python's `round`. Times are whole microseconds since the epoch, and `now` is at least
-- 30 days after it.
pub mod Counting
pub mod Totals
use tao_gateway.Base.{
  ℕ, ◌+◌, ◌-◌, ◌*◌, String, Bool, true, false, ◌&&◌, Option, none, some, List, [], ◌∷◌, map, length,
  keep, leb, ltb, nat_eq, string_eq, pair_eq, if◌then◌else◌,
}
use tao_gateway.Base.Dict.{Dict, lookup, insert}
use tao_gateway.Base.Sums.{sum_by}
use tao_gateway.Base.Sorting.{sorted}
use tao_gateway.Base.Grouping.{group_by}
use tao_gateway.Routing.Float.{Floats}
use tao_gateway.Usage.{UsageRecord}
use tao_gateway.Usage.Aggregation.{
  DailyUsageSummary, SummaryKey, Summaries, Store, day_us, date_of, in_range, is_success, is_error,
}
use tao_gateway.Usage.Summaries.{average, values}

-- The values that the pattern of the query parameter lets through.
pub data TimeRange : Type 0 where
  last_1h last_24h last_7d last_30d : TimeRange

-- `_time_range_to_dates`: the start of the range.
unfoldable pub start_of : TimeRange → ℕ → ℕ
start_of last_1h now = now - 3_600_000_000
start_of last_24h now = now - day_us
start_of last_7d now = now - 7 * day_us
start_of last_30d now = now - 30 * day_us

abbrev pub netuid_name : UsageRecord → ℕ × String
netuid_name r = (r.netuid, r.subnet_name)

abbrev pub summary_netuid_name : SummaryKey × DailyUsageSummary → ℕ × String
summary_netuid_name (k, s) = (k.netuid, s.subnet_name)

abbrev pub in_days : ℕ → ℕ → SummaryKey × DailyUsageSummary → Bool
in_days first last s = leb first s.0.summary_date && leb s.0.summary_date last

module _ (x : Floats) (float_avg : List ℕ → x.F) (percentile : ℕ → List ℕ → ℕ)
    (round_to : ℕ → x.F → x.F) where
  open x use {F, zero, div, decimal, leb as float_leb}

  -- A value of `subnet_data`.
  pub record SubnetData : Type 0 where
    pub subnet_name : String
    pub netuid : ℕ
    pub request_count : ℕ
    pub success_count : ℕ
    pub error_count : ℕ
    pub avg_latency_ms : F
    pub p50_latency_ms : ℕ
    pub p95_latency_ms : ℕ
    pub p99_latency_ms : ℕ

  pub record SubnetMetrics : Type 0 where
    pub subnet_name : String
    pub netuid : ℕ
    pub request_count : ℕ
    pub success_count : ℕ
    pub error_count : ℕ
    pub error_rate : F
    pub avg_latency_ms : F
    pub p50_latency_ms : ℕ
    pub p95_latency_ms : ℕ
    pub p99_latency_ms : ℕ

  pub record MetricsResponse : Type 0 where
    pub time_range : TimeRange
    pub subnets : List SubnetMetrics
    pub total_requests : ℕ
    pub total_errors : ℕ
    pub overall_error_rate : F

  abbrev pub latencies : List UsageRecord → List ℕ
  latencies l = map (λ (r : UsageRecord). r.latency_ms) l

  -- A row of a query over the live records.
  abbrev pub live_row : (ℕ × String) × List UsageRecord → SubnetData
  live_row ((netuid, subnet_name), l) = record {
    subnet_name = subnet_name;
    netuid = netuid;
    request_count = length l;
    success_count = length (keep is_success l);
    error_count = length (keep is_error l);
    avg_latency_ms = float_avg (latencies l);
    p50_latency_ms = percentile 50 (latencies l);
    p95_latency_ms = percentile 95 (latencies l);
    p99_latency_ms = percentile 99 (latencies l);
  }

  abbrev pub live_rows : (UsageRecord → Bool) → List UsageRecord → List SubnetData
  live_rows p records = map live_row (group_by netuid_name (keep p records))

  -- A row of the query over the daily summaries.
  abbrev pub summary_row : (ℕ × String) × List (SummaryKey × DailyUsageSummary) → SubnetData
  summary_row ((netuid, subnet_name), l) = record {
    subnet_name = subnet_name;
    netuid = netuid;
    request_count = sum_by (λ s. s.1.request_count) l;
    success_count = sum_by (λ s. s.1.success_count) l;
    error_count = sum_by (λ s. s.1.error_count) l;
    avg_latency_ms = zero;
    p50_latency_ms = average (λ s. s.p50_latency_ms) l;
    p95_latency_ms = average (λ s. s.p95_latency_ms) l;
    p99_latency_ms = average (λ s. s.p99_latency_ms) l;
  }

  abbrev pub summary_rows : ℕ → ℕ → Summaries → List SubnetData
  summary_rows first last table =
      if leb first last
      then map summary_row (group_by summary_netuid_name (keep (in_days first last) table))
      else []

  -- `subnet_data[row.netuid] = …`, row after row.
  unfoldable pub put_rows : List SubnetData → Dict ℕ SubnetData → Dict ℕ SubnetData
  put_rows [] found = found
  put_rows (row ∷ rows) found = put_rows rows (insert row.netuid row found)

  -- A row of today on what the summaries gave.
  abbrev pub with_today : SubnetData → Option SubnetData → SubnetData
  with_today row none = row
  with_today row (some d) = record d {
    request_count = d.request_count + row.request_count;
    success_count = d.success_count + row.success_count;
    error_count = d.error_count + row.error_count;
    p50_latency_ms = row.p50_latency_ms;
    p95_latency_ms = row.p95_latency_ms;
    p99_latency_ms = row.p99_latency_ms;
  }

  -- The loop over the rows of today.
  unfoldable pub add_today : List SubnetData → Dict ℕ SubnetData → Dict ℕ SubnetData
  add_today [] found = found
  add_today (row ∷ rows) found =
      add_today rows (insert row.netuid (with_today row (lookup row.netuid found)) found)

  abbrev pub recent : ℕ → List UsageRecord → List SubnetData
  recent start records = live_rows (λ (r : UsageRecord). leb start r.created_at) records

  abbrev pub of_today : ℕ → List UsageRecord → List SubnetData
  of_today today records = live_rows (in_range (today * day_us) (today * day_us + day_us)) records

  abbrev pub days_and_today : ℕ → ℕ → Store → Dict ℕ SubnetData
  days_and_today start today s =
      add_today (of_today today s.usage_records)
        (put_rows (summary_rows (date_of start) (today - 1) s.summaries) [])

  -- `subnet_data` before the response is built.
  unfoldable pub subnet_data : TimeRange → ℕ → Store → Dict ℕ SubnetData
  subnet_data last_1h now s = put_rows (recent (start_of last_1h now) s.usage_records) []
  subnet_data range now s = days_and_today (start_of range now) (date_of now) s

  -- A rate of counts, and 0.0 where there are none; `float` of a count is exact below 2^53.
  abbrev pub rate : ℕ → ℕ → F
  rate errors requests =
      if ltb 0 requests then div (decimal errors 0) (decimal requests 0) else zero

  abbrev pub is_zero : F → Bool
  is_zero a = float_leb a zero && float_leb zero a

  abbrev pub shown_latency : SubnetData → F
  shown_latency d =
      if is_zero d.avg_latency_ms && ltb 0 d.p50_latency_ms
      then decimal d.p50_latency_ms 0
      else d.avg_latency_ms

  abbrev pub metrics_of : SubnetData → SubnetMetrics
  metrics_of d = record {
    subnet_name = d.subnet_name;
    netuid = d.netuid;
    request_count = d.request_count;
    success_count = d.success_count;
    error_count = d.error_count;
    error_rate = round_to 4 (rate d.error_count d.request_count);
    avg_latency_ms = round_to 1 (shown_latency d);
    p50_latency_ms = d.p50_latency_ms;
    p95_latency_ms = d.p95_latency_ms;
    p99_latency_ms = d.p99_latency_ms;
  }

  abbrev pub netuid_le : SubnetMetrics → SubnetMetrics → Bool
  netuid_le a b = leb a.netuid b.netuid

  abbrev pub response_of : TimeRange → List SubnetData → MetricsResponse
  response_of range found =
      let requests = sum_by (λ (d : SubnetData). d.request_count) found in
      let errors = sum_by (λ (d : SubnetData). d.error_count) found in
      record {
        time_range = range;
        subnets = sorted netuid_le (map metrics_of found);
        total_requests = requests;
        total_errors = errors;
        overall_error_rate = round_to 4 (rate errors requests);
      }

  unfoldable pub get_system_metrics : TimeRange → ℕ → Store → MetricsResponse
  get_system_metrics range now s = response_of range (values (subnet_data range now s))
