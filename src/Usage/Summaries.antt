-- ===== src/Usage/Summaries.antt =====
-- `get_usage_summaries` and `_aggregate_to_monthly` of gateway/services/usage_service.py, with
-- `UsageSummary` and `SubnetUsage` of gateway/schemas/usage.py. `isoformat` is `date.isoformat`, and
-- `percentile` what `int` makes of the database's `percentile_cont`; `avg` of integers is cut to an
-- integer by `int`. A date is the number of a day since the epoch, and not the epoch's own.
pub mod Monthly
use Prim.Native.String.{compare}
use text.Mathlib.Text.{is_le}
use tao_gateway.Base.{
  ℕ, ◌+◌, ◌-◌, ◌*◌, ◌/◌, String, Bool, true, false, ◌&&◌, ◌↔◌, ◌≡◌, Option, none, some, List, [],
  ◌∷◌, ◌++◌, map, length, keep, leb, ltb, nat_beq, str_eq, nat_eq, string_eq, pair_eq, eq_iff,
  arith, if◌then◌else◌, Key, prefix,
}
use tao_gateway.Base.Dict.{Dict, lookup, insert}
use tao_gateway.Base.Sorting.{sorted}
use tao_gateway.Base.Sums.{sum_by}
use tao_gateway.Base.Grouping.{group_by}
use tao_gateway.Usage.{UsageRecord}
use tao_gateway.Usage.Aggregation.{
  DailyUsageSummary, SummaryKey, Summaries, Store, day_us, in_range, is_success, is_error,
}

pub record UsageSummary : Type 0 where
  pub period : String
  pub request_count : ℕ
  pub success_count : ℕ
  pub error_count : ℕ
  pub p50_latency_ms : ℕ
  pub p95_latency_ms : ℕ
  pub p99_latency_ms : ℕ
  pub total_prompt_tokens : ℕ
  pub total_completion_tokens : ℕ

pub record SubnetUsage : Type 0 where
  pub subnet_name : String
  pub netuid : ℕ
  pub summaries : List UsageSummary

-- `UsageSummary(period=…)`
abbrev pub empty_summary : String → UsageSummary
empty_summary period = record {
  period = period;
  request_count = 0;
  success_count = 0;
  error_count = 0;
  p50_latency_ms = 0;
  p95_latency_ms = 0;
  p99_latency_ms = 0;
  total_prompt_tokens = 0;
  total_completion_tokens = 0;
}

abbrev pub max_of : ℕ → ℕ → ℕ
max_of a b = if leb a b then b else a

-- `s.period[:7]`
abbrev pub month_key : UsageSummary → String
month_key s = prefix 7 s.period

-- The body of the loop, on the summary of the month.
abbrev pub add_summary : UsageSummary → UsageSummary → UsageSummary
add_summary s m = record {
  period = m.period;
  request_count = m.request_count + s.request_count;
  success_count = m.success_count + s.success_count;
  error_count = m.error_count + s.error_count;
  p50_latency_ms = max_of m.p50_latency_ms s.p50_latency_ms;
  p95_latency_ms = max_of m.p95_latency_ms s.p95_latency_ms;
  p99_latency_ms = max_of m.p99_latency_ms s.p99_latency_ms;
  total_prompt_tokens = m.total_prompt_tokens + s.total_prompt_tokens;
  total_completion_tokens = m.total_completion_tokens + s.total_completion_tokens;
}

abbrev pub or_empty_summary : String → Option UsageSummary → UsageSummary
or_empty_summary period none = empty_summary period
or_empty_summary period (some m) = m

unfoldable pub collect_months :
    List UsageSummary → Dict String UsageSummary → Dict String UsageSummary
collect_months [] monthly = monthly
collect_months (s ∷ summaries) monthly =
    let key = month_key s in
    collect_months summaries
      (insert key (add_summary s (or_empty_summary key (lookup key monthly))) monthly)

abbrev pub period_le : UsageSummary → UsageSummary → Bool
period_le a b = is_le (compare a.period b.period)

-- `.values()`
abbrev pub values {ℓ κ} : {K : Type ℓ} {V : Type κ} → Dict K V → List V
values [] = []
values ((k, v) ∷ d) = v ∷ values d

unfoldable pub aggregate_to_monthly : List UsageSummary → List UsageSummary
aggregate_to_monthly summaries = sorted period_le (values (collect_months summaries []))

-- The columns of the first GROUP BY: netuid, subnet_name, summary_date.
abbrev pub day_beq : ℕ × String × ℕ → ℕ × String × ℕ → Bool
day_beq (a, s, d) (b, t, e) = nat_beq a b && (str_eq s t && nat_beq d e)

pub day_beq_iff : (p q : ℕ × String × ℕ) → (day_beq p q ≡ true) ↔ (p ≡ q)
day_beq_iff (a, s, d) (b, t, e) = ground (arith, eq_iff s t)

instance abbrev pub day_eq : Key (ℕ × String × ℕ)
day_eq = record { same = day_beq; same_iff = day_beq_iff }

-- A row of either query: its subnet and its summary.
pub record UsageRow : Type 0 where
  pub netuid : ℕ
  pub subnet_name : String
  pub summary : UsageSummary

abbrev pub average : (DailyUsageSummary → ℕ) → List (SummaryKey × DailyUsageSummary) → ℕ
average f l = sum_by (λ x. f x.1) l / length l

-- `if subnet_filter: stmt.where(subnet_name == subnet_filter)`
abbrev pub passes_filter : Option String → String → Bool
passes_filter none name = true
passes_filter (some f) name = if str_eq f "" then true else str_eq name f

module _ (isoformat : ℕ → String) (percentile : ℕ → List ℕ → ℕ) where
  abbrev pub day_row : (ℕ × String × ℕ) × List (SummaryKey × DailyUsageSummary) → UsageRow
  day_row ((netuid, subnet_name, date), l) = record {
    netuid = netuid;
    subnet_name = subnet_name;
    summary = record {
      period = isoformat date;
      request_count = sum_by (λ x. x.1.request_count) l;
      success_count = sum_by (λ x. x.1.success_count) l;
      error_count = sum_by (λ x. x.1.error_count) l;
      p50_latency_ms = average (λ s. s.p50_latency_ms) l;
      p95_latency_ms = average (λ s. s.p95_latency_ms) l;
      p99_latency_ms = average (λ s. s.p99_latency_ms) l;
      total_prompt_tokens = sum_by (λ x. x.1.total_prompt_tokens) l;
      total_completion_tokens = sum_by (λ x. x.1.total_completion_tokens) l;
    };
  }

  abbrev pub today_row : ℕ → (ℕ × String) × List UsageRecord → UsageRow
  today_row today ((netuid, subnet_name), l) = record {
    netuid = netuid;
    subnet_name = subnet_name;
    summary = record {
      period = isoformat today;
      request_count = length l;
      success_count = length (keep is_success l);
      error_count = length (keep is_error l);
      p50_latency_ms = percentile 50 (map (λ (r : UsageRecord). r.latency_ms) l);
      p95_latency_ms = percentile 95 (map (λ (r : UsageRecord). r.latency_ms) l);
      p99_latency_ms = percentile 99 (map (λ (r : UsageRecord). r.latency_ms) l);
      total_prompt_tokens = sum_by (λ (r : UsageRecord). r.prompt_tokens) l;
      total_completion_tokens = sum_by (λ (r : UsageRecord). r.completion_tokens) l;
    };
  }

  -- The rows of the first query, in the order of their dates, if the range has a completed day.
  abbrev pub day_rows : ℕ → ℕ → ℕ → ℕ → Option String → Summaries → List UsageRow
  day_rows org_id start_date end_date today subnet_filter table =
      let summary_end = if leb end_date (today - 1) then end_date else today - 1 in
      if leb start_date summary_end
      then map day_row (
          sorted (λ g h. leb g.0.2 h.0.2)
            (group_by
              (λ (x : SummaryKey × DailyUsageSummary).
                let k : ℕ × String × ℕ = (x.0.netuid, x.1.subnet_name, x.0.summary_date) in k)
              (keep
                (λ (x : SummaryKey × DailyUsageSummary).
                  nat_beq x.1.org_id org_id
                  && (leb start_date x.0.summary_date
                      && (leb x.0.summary_date summary_end
                          && passes_filter subnet_filter x.1.subnet_name)))
                table)))
      else []

  abbrev pub today_rows : ℕ → ℕ → ℕ → ℕ → Option String → List UsageRecord → List UsageRow
  today_rows org_id start_date end_date today subnet_filter records =
      if leb start_date today && leb today end_date
      then map (today_row today) (
          group_by (λ (r : UsageRecord). let k : ℕ × String = (r.netuid, r.subnet_name) in k)
            (keep
              (λ (r : UsageRecord).
                nat_beq r.org_id org_id
                && (in_range (today * day_us) (today * day_us + day_us) r
                    && passes_filter subnet_filter r.subnet_name))
              records))
      else []

  abbrev pub or_new_subnet : UsageRow → Option SubnetUsage → SubnetUsage
  or_new_subnet row none = record {
    subnet_name = row.subnet_name;
    netuid = row.netuid;
    summaries = [];
  }
  or_new_subnet row (some u) = u

  abbrev pub add_usage : UsageRow → SubnetUsage → SubnetUsage
  add_usage row u = record {
    subnet_name = u.subnet_name;
    netuid = u.netuid;
    summaries = u.summaries ++ row.summary ∷ [];
  }

  -- The loops over the rows.
  unfoldable pub add_rows : List UsageRow → Dict ℕ SubnetUsage → Dict ℕ SubnetUsage
  add_rows [] results = results
  add_rows (row ∷ rows) results =
      add_rows rows
        (insert row.netuid (add_usage row (or_new_subnet row (lookup row.netuid results))) results)

  abbrev pub by_granularity : String → SubnetUsage → SubnetUsage
  by_granularity granularity u =
      if str_eq granularity "monthly"
      then record u { summaries = aggregate_to_monthly u.summaries }
      else u

  unfoldable pub get_usage_summaries :
      ℕ → ℕ → ℕ → ℕ → String → Option String → Store → List SubnetUsage
  get_usage_summaries org_id start_date end_date today granularity subnet_filter s =
      let rows =
        day_rows org_id start_date end_date today subnet_filter s.summaries
        ++ today_rows org_id start_date end_date today subnet_filter s.usage_records in
      sorted (λ a b. leb a.netuid b.netuid)
        (map (by_granularity granularity) (values (add_rows rows [])))
