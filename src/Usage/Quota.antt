-- ===== src/Usage/Quota.antt =====
-- `get_quota_status` of gateway/services/usage_service.py: the requests of an organisation in the
-- calendar month, from the summaries of the days before and the records of today. `month_start` is
-- what `date.replace(day=1)` makes of a date.
pub mod Rows
pub mod Month
pub mod Count
use tao_gateway.Base.{
  ℕ, ◌+◌, ◌-◌, ◌*◌, String, Bool, true, false, ◌&&◌, Option, none, some, List, [], ◌∷◌, map, length,
  keep, leb, ltb, nat_beq, nat_eq,
}
use tao_gateway.Base.Dict.{Dict, lookup, insert}
use tao_gateway.Base.Sums.{sum_by}
use tao_gateway.Base.Grouping.{group_by, map_values}
use tao_gateway.RateLimit.Limits.{get_subnet_rate_limits}
use tao_gateway.Usage.{UsageRecord}
use tao_gateway.Usage.Aggregation.{
  DailyUsageSummary, SummaryKey, Summaries, Store, day_us, in_range,
}

pub record SubnetQuota : Type 0 where
  pub subnet_name : String
  pub netuid : ℕ
  pub monthly_limit : ℕ
  pub monthly_used : ℕ
  pub monthly_remaining : ℕ

abbrev pub tracked_subnets : Dict ℕ String
tracked_subnets = (1, "sn1") ∷ (19, "sn19") ∷ (62, "sn62") ∷ []

abbrev pub or_zero : Option ℕ → ℕ
or_zero none = 0
or_zero (some n) = n

-- `SUM(request_count)` of a group.
abbrev pub request_total : ℕ × List (SummaryKey × DailyUsageSummary) → ℕ
request_total (netuid, l) = sum_by (λ x. x.1.request_count) l

-- The rows of the first query, as the dictionary `counts`.
abbrev pub summary_counts : ℕ → ℕ → Summaries → Dict ℕ ℕ
summary_counts org_id month_start table = map_values request_total (
    group_by (λ (x : SummaryKey × DailyUsageSummary). x.0.netuid)
      (keep
        (λ (x : SummaryKey × DailyUsageSummary).
          nat_beq x.1.org_id org_id && leb month_start x.0.summary_date)
        table))

-- The rows of the second query.
abbrev pub today_counts : ℕ → ℕ → List UsageRecord → Dict ℕ ℕ
today_counts org_id today records =
    map_values (λ g. length g.1)
      (group_by (λ (r : UsageRecord). r.netuid)
        (keep
          (λ (r : UsageRecord).
            nat_beq r.org_id org_id && in_range (today * day_us) (today * day_us + day_us) r)
          records))

-- The loop over the rows of the second query.
unfoldable pub add_counts : List (ℕ × ℕ) → Dict ℕ ℕ → Dict ℕ ℕ
add_counts [] counts = counts
add_counts ((netuid, total) ∷ rows) counts =
    add_counts rows (insert netuid (or_zero (lookup netuid counts) + total) counts)

abbrev pub quota_of : Dict ℕ ℕ → ℕ × String → SubnetQuota
quota_of counts (netuid, subnet_name) =
    let monthly_limit = (get_subnet_rate_limits netuid).month in
    let monthly_used = or_zero (lookup netuid counts) in
    record {
      subnet_name = subnet_name;
      netuid = netuid;
      monthly_limit = monthly_limit;
      monthly_used = monthly_used;
      monthly_remaining = monthly_limit - monthly_used;
    }

unfoldable pub get_quota_status : (ℕ → ℕ) → ℕ → ℕ → Store → List SubnetQuota
get_quota_status month_start org_id today s =
    let counts =
      add_counts (today_counts org_id today s.usage_records)
        (summary_counts org_id (month_start today) s.summaries) in
    map (quota_of counts) tracked_subnets
