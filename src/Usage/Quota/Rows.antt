-- ===== src/Usage/Quota/Rows.antt =====
-- What the two queries of a quota count.
use tao_gateway.Base.{
  ℕ, ◌+◌, ◌*◌, ◌≡◌, refl, ap, sym, ◌∙◌, Bool, ◌&&◌, List, [], ◌∷◌, length, keep, All-of, arith, leb,
  nat_beq, nat_beq_iff, nat_eq, if◌then◌else◌, ◌==◌,
}
use tao_gateway.Base.Dict.{Dict, lookup, insert, lookup-insert}
use tao_gateway.Base.Sums.{sum_by, sum_by-keep, sum_by-ext, sum_by-if, length-keep_sum}
use tao_gateway.Base.Grouping.{
  group_by, non_empty, lookup-group_by, sum_by-group_by, map_values, lookup-map_values, value_at,
}
use tao_gateway.Usage.{UsageRecord}
use tao_gateway.Usage.Aggregation.{
  DailyUsageSummary, SummaryKey, Summaries, day_us, date_of, in_range, summary_eq, group_eq,
}
use tao_gateway.Usage.Quota.{or_zero, request_total, summary_counts, today_counts, add_counts}

-- The loop adds up the rows of a subnet.
pub lookup-add_counts :
    (n : ℕ) (rows counts : Dict ℕ ℕ)
    → or_zero (lookup n (add_counts rows counts))
      ≡ or_zero (lookup n counts) + sum_by (λ x. if nat_beq x.0 n then x.1 else 0) rows
unfolding add_counts
lookup-add_counts n [] counts = omega arith
lookup-add_counts n ((m, total) ∷ rows) counts =
    let more = or_zero (lookup m counts) + total in
    ground (
      arith,
      lookup-add_counts n rows (insert m more counts),
      lookup-insert m n more counts,
      nat_beq_iff m n,
    )

sum_by-map_values :
    (n : ℕ) (groups : Dict ℕ (List UsageRecord))
    → sum_by (λ x. if nat_beq x.0 n then x.1 else 0) (map_values (λ g. length g.1) groups)
      ≡ sum_by (λ g. sum_by (λ r. if nat_beq g.0 n then 1 else 0) g.1) groups
sum_by-map_values n [] = refl
sum_by-map_values n ((m, l) ∷ groups) =
    ground (arith, sum_by-map_values n groups, sum_by-if (nat_beq m n) l)

-- The requests of an organisation to a subnet from the date `first` until the date `last`.
abbrev pub is_request : ℕ → ℕ → ℕ → ℕ → UsageRecord → Bool
is_request org_id netuid first last r =
    nat_beq r.org_id org_id
    && (nat_beq r.netuid netuid
        && (leb first (date_of r.created_at) && leb (date_of r.created_at) last))

abbrev pub requests_in : ℕ → ℕ → ℕ → ℕ → List UsageRecord → ℕ
requests_in org_id netuid first last records =
    length (keep (is_request org_id netuid first last) records)

pub today_counts_lem :
    (org_id n today : ℕ) (records : List UsageRecord)
    → sum_by (λ x. if nat_beq x.0 n then x.1 else 0) (today_counts org_id today records)
      ≡ requests_in org_id n today today records
today_counts_lem org_id n today records =
    let today_r = λ (r : UsageRecord).
      nat_beq r.org_id org_id && in_range (today * day_us) (today * day_us + day_us) r in
    let l = keep today_r records in
    sum_by-map_values n (group_by (λ (r : UsageRecord). r.netuid) l)
    ∙ sum_by-group_by (λ (r : UsageRecord). r.netuid) (λ m r. if nat_beq m n then 1 else 0) l
    ∙ sum_by-keep _ today_r records
    ∙ sum_by-ext _ _ records (All-of _ (λ r. ground arith) records)
    ∙ sym (length-keep_sum _ records)

-- The requests that a summary counts for a subnet.
abbrev pub requests_counted : ℕ → ℕ → ℕ → SummaryKey × DailyUsageSummary → ℕ
requests_counted org_id n first (k, row) =
    if nat_beq k.netuid n && (nat_beq row.org_id org_id && leb first k.summary_date)
    then row.request_count
    else 0

or_zero-non_empty :
    (n : ℕ) (l : List (SummaryKey × DailyUsageSummary))
    → or_zero (value_at request_total n (non_empty l)) ≡ sum_by (λ x. x.1.request_count) l
or_zero-non_empty n [] = refl
or_zero-non_empty n (x ∷ l) = refl

pub summary_counts_lem :
    (org_id n first : ℕ) (table : Summaries)
    → or_zero (lookup n (summary_counts org_id first table))
      ≡ sum_by (requests_counted org_id n first) table
summary_counts_lem org_id n first table =
    let of_month = λ (x : SummaryKey × DailyUsageSummary).
      nat_beq x.1.org_id org_id && leb first x.0.summary_date in
    let netuid_of = λ (x : SummaryKey × DailyUsageSummary). x.0.netuid in
    let month = keep of_month table in
    ap or_zero (lookup-map_values request_total n (group_by netuid_of month))
    ∙ ap (λ o. or_zero (value_at request_total n o)) (lookup-group_by netuid_of n month)
    ∙ or_zero-non_empty n (keep (λ x. netuid_of x == n) month)
    ∙ sum_by-keep _ (λ x. netuid_of x == n) month
    ∙ sum_by-keep _ of_month table
    ∙ sum_by-ext _ _ table (All-of _ (λ x. ground arith) table)
