-- ===== src/Usage/Quota/Count.antt =====
-- The quota counts every request of the month once.
use tao_gateway.Base.{ℕ, ◌+◌, ◌-◌, ◌*◌, ◌≤◌, ◌≡◌, refl, String, List, All, arith, ltb, nat_eq}
use tao_gateway.Base.Dict.{lookup}
use tao_gateway.RateLimit.Limits.{get_subnet_rate_limits}
use tao_gateway.Usage.{UsageRecord}
use tao_gateway.Usage.Aggregation.{Store, Run, day_us, summary_eq, group_eq}
use tao_gateway.Usage.Aggregation.Runs.{runs, IsSound, covered}
use tao_gateway.Usage.Quota.{
  SubnetQuota, or_zero, summary_counts, today_counts, add_counts, get_quota_status,
}
use tao_gateway.Usage.Quota.Rows.{
  requests_in, lookup-add_counts, today_counts_lem, summary_counts_lem,
}
use tao_gateway.Usage.Quota.Month.{IsFresh, summed_before, summed_month, today_kept}

-- What a quota should say of a subnet.
abbrev pub IsRight : ℕ → ℕ → ℕ → List UsageRecord → SubnetQuota → Type 0
IsRight org_id first today records q =
    (q.monthly_used ≡ requests_in org_id q.netuid first today records)
    × (q.monthly_limit ≡ (get_subnet_rate_limits q.netuid).month)
    × (q.monthly_remaining ≡ q.monthly_limit - q.monthly_used)

-- Let the table have no summary of this month before the runs, the records and rows have the owner
-- of their key and the name of their subnet, each run happen within the retention of the month's
-- first day, and the runs aggregate a day of this month or later exactly where it is before today.
-- Then the quota of each tracked subnet, read from the summaries and today's records, is the count
-- of all records of the organisation for the subnet from the month's first day to today, and what
-- remains is the limit of the month less that, at least 0.
pub get_quota_status-IsRight :
    (percentile : ℕ → List ℕ → ℕ) (owner : ℕ → ℕ) (name : ℕ → String) (month_start : ℕ → ℕ)
    (retention today org_id : ℕ) (past : List Run) (s : Store)
    → month_start today ≤ today
    → All (λ run. run.later ≤ (month_start today + retention) * day_us) past
    → IsSound percentile owner name (month_start today) retention s.usage_records s
    → IsFresh percentile owner name (month_start today) today retention s.summaries
    → ((date : ℕ) → month_start today ≤ date → covered past date ≡ ltb date today)
    → All
        (IsRight org_id (month_start today) today s.usage_records)
        (get_quota_status month_start org_id today (runs percentile retention past s))
unfolding get_quota_status
get_quota_status-IsRight percentile owner name month_start retention today org_id past s o r h f c =
    ((right 1, refl, refl), ((right 19, refl, refl), ((right 62, refl, refl), tt)))
  where
    s' : Store
    s' = runs percentile retention past s

    right :
        (n : ℕ)
        → or_zero (
            lookup n (
              add_counts
                (today_counts org_id today s'.usage_records)
                (summary_counts org_id (month_start today) s'.summaries)))
          ≡ requests_in org_id n (month_start today) today s.usage_records
    right n =
        let first = month_start today in
        omega (
          arith,
          lookup-add_counts n (today_counts org_id today s'.usage_records)
              (summary_counts org_id first s'.summaries),
          today_counts_lem org_id n today s'.usage_records,
          summary_counts_lem org_id n first s'.summaries,
          summed_month percentile owner name first today retention past org_id n s r h f c,
          today_kept percentile owner name first today retention past org_id n s r h o,
          summed_before percentile owner name first today org_id n s.usage_records o,
        )
