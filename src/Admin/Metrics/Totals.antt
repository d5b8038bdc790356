-- ===== src/Admin/Metrics/Totals.antt =====
-- What the metrics of the operators count, against the rows of the usage.
use tao_gateway.Base.{
  ℕ, ◌+◌, ◌-◌, ◌*◌, ◌≡◌, refl, sym, ap, ◌∙◌, inl, inr, String, Bool, false, List, [], ◌∷◌, map,
  length, keep, leb, nat_eq, string_eq, pair_eq, arith, All, All-keep, if◌then◌else◌, Bool-cases,
}
use tao_gateway.Base.Dict.{Dict}
use tao_gateway.Base.Sums.{sum_by, sum_by-map, sum_by-keep, length-sum_by}
use tao_gateway.Base.Sorting.{IsSorted, sum_by-sorted, sorted-IsSorted}
use tao_gateway.Base.Grouping.{group_by}
use tao_gateway.Routing.Float.{Floats}
use tao_gateway.Usage.{UsageRecord}
use tao_gateway.Usage.Aggregation.{
  DailyUsageSummary, SummaryKey, Summaries, Store, day_us, date_of, in_range, is_error,
}
use tao_gateway.Usage.Summaries.{values}
use tao_gateway.Admin.Metrics.{
  TimeRange, last_1h, last_24h, last_7d, last_30d, start_of, netuid_name, live_row, in_days,
  summary_rows, put_rows, of_today, days_and_today, subnet_data, metrics_of, netuid_le,
  get_system_metrics,
}
use tao_gateway.Admin.Metrics.Counting.{
  Counter, total, total-add_today, total-live, put_live, put_summaries,
}

sum_by-values {ℓ κ} :
    {K : Type ℓ} {V : Type κ} (w : V → ℕ) (d : Dict K V)
    → sum_by w (values d) ≡ sum_by (λ e. w e.1) d
sum_by-values w [] = refl
sum_by-values w ((k, v) ∷ d) = ap (λ n. w v + n) (sum_by-values w d)

error_sum :
    (l : List UsageRecord) → length (keep is_error l) ≡ sum_by (λ r. if is_error r then 1 else 0) l
error_sum l = length-sum_by (keep is_error l) ∙ sum_by-keep (λ r. 1) is_error l

keep_none {ℓ} : {A : Type ℓ} (p : A → Bool) (l : List A) → ((a : A) → p a ≡ false) → keep p l ≡ []
keep_none p [] h = refl
keep_none p (a ∷ l) h = rw (h a) (keep_none p l h)

-- The rows of a range: the live records, and the summaries of the days before.
abbrev pub live_of : TimeRange → ℕ → List UsageRecord → List UsageRecord
live_of last_1h now records =
    keep (λ (r : UsageRecord). leb (start_of last_1h now) r.created_at) records
live_of range now records =
    let today = date_of now in keep (in_range (today * day_us) (today * day_us + day_us)) records

abbrev pub days_of : TimeRange → ℕ → Summaries → Summaries
days_of last_1h now table = []
days_of range now table = keep (in_days (date_of (start_of range now)) (date_of now - 1)) table

-- The rows have the names of their netuids.
abbrev pub HasNames : (ℕ → String) → Store → Type 0
HasNames name s =
    All (λ (r : UsageRecord). r.subnet_name ≡ name r.netuid) s.usage_records
    × All (λ (d : SummaryKey × DailyUsageSummary). d.1.subnet_name ≡ name d.0.netuid) s.summaries

module _ (x : Floats) (float_avg : List ℕ → x.F) (percentile : ℕ → List ℕ → ℕ)
    (round_to : ℕ → x.F → x.F) (name : ℕ → String) where
  module _ (c : Counter x float_avg percentile round_to) where
    abbrev counted_rows : TimeRange → ℕ → Store → ℕ
    counted_rows range now s =
        sum_by c.of_summary (days_of range now s.summaries)
        + sum_by c.of_record (live_of range now s.usage_records)

    days_counted :
        (first last : ℕ) (table : Summaries)
        → All (λ (d : SummaryKey × DailyUsageSummary). d.1.subnet_name ≡ name d.0.netuid) table
        → total x float_avg percentile round_to c (
            put_rows x float_avg percentile round_to
              (summary_rows x float_avg percentile round_to first last table)
              [])
          ≡ sum_by c.of_summary (keep (in_days first last) table)
    unfolding put_rows
    days_counted first last table named = elim (Bool-cases (leb first last)) [
      | inl some_days ↦ rw some_days (
          put_summaries x float_avg percentile round_to c name (keep (in_days first last) table)
            (All-keep _ (in_days first last) table named))
      | inr no_days ↦
          rw (no_days, keep_none (in_days first last) table (λ d. ground (arith, no_days))) refl
    ]

    days_and_today_lem :
        (start today : ℕ) (s : Store)
        → HasNames name s
        → total x float_avg percentile round_to c
            (days_and_today x float_avg percentile round_to start today s)
          ≡ sum_by c.of_summary (keep (in_days (date_of start) (today - 1)) s.summaries)
            + sum_by c.of_record
                (keep (in_range (today * day_us) (today * day_us + day_us)) s.usage_records)
    days_and_today_lem start today s named =
        let live = keep (in_range (today * day_us) (today * day_us + day_us)) s.usage_records in
        let days =
          summary_rows x float_avg percentile round_to (date_of start) (today - 1) s.summaries in
        omega (
          arith,
          total-add_today x float_avg percentile round_to c
              (of_today x float_avg percentile round_to today s.usage_records)
              (put_rows x float_avg percentile round_to days []),
          days_counted (date_of start) (today - 1) s.summaries named.1,
          sum_by-map c.of_row (live_row x float_avg percentile round_to)
              (group_by netuid_name live),
          total-live x float_avg percentile round_to c live,
        )

    subnet_data-counted :
        (range : TimeRange) (now : ℕ) (s : Store)
        → HasNames name s
        → total x float_avg percentile round_to c
            (subnet_data x float_avg percentile round_to range now s)
          ≡ counted_rows range now s
    unfolding subnet_data
    subnet_data-counted last_1h now s named =
        put_live x float_avg percentile round_to c name (live_of last_1h now s.usage_records)
          (All-keep _ _ s.usage_records named.0)
        ∙ omega arith
    subnet_data-counted last_24h now s named =
        days_and_today_lem (start_of last_24h now) (date_of now) s named
    subnet_data-counted last_7d now s named =
        days_and_today_lem (start_of last_7d now) (date_of now) s named
    subnet_data-counted last_30d now s named =
        days_and_today_lem (start_of last_30d now) (date_of now) s named

  abbrev requests : Counter x float_avg percentile round_to
  requests = record {
    of_row = λ row. row.request_count;
    of_record = λ r. 1;
    of_summary = λ d. d.1.request_count;
    live_law = λ k l. length-sum_by l;
    summary_law = λ k l. refl;
    today_law = λ row d. refl;
  }

  abbrev errors : Counter x float_avg percentile round_to
  errors = record {
    of_row = λ row. row.error_count;
    of_record = λ r. if is_error r then 1 else 0;
    of_summary = λ d. d.1.error_count;
    live_law = λ k l. error_sum l;
    summary_law = λ k l. refl;
    today_law = λ row d. refl;
  }

  -- From tables whose rows have the names of their netuids, the totals of the metrics are those of
  -- the records of the last hour, or, for a longer range, of the summaries from the day on which the
  -- range begins to yesterday with today's records; the subnets' counts add up to them, and the
  -- subnets are sorted by their netuids.
  pub get_system_metrics-IsTotal :
      (range : TimeRange) (now : ℕ) (s : Store)
      → HasNames name s
      → let m = get_system_metrics x float_avg percentile round_to range now s in
        let live = live_of range now s.usage_records in
        let days = days_of range now s.summaries in
        (m.total_requests ≡ sum_by (λ d. d.1.request_count) days + length live)
        × (m.total_errors ≡ sum_by (λ d. d.1.error_count) days + length (keep is_error live))
        × (sum_by (λ u. u.request_count) m.subnets ≡ m.total_requests)
        × (sum_by (λ u. u.error_count) m.subnets ≡ m.total_errors)
        × IsSorted (netuid_le x float_avg percentile round_to) m.subnets
  unfolding get_system_metrics
  get_system_metrics-IsTotal range now s named =
      let found = subnet_data x float_avg percentile round_to range now s in
      let le = netuid_le x float_avg percentile round_to in
      let shown = map (metrics_of x float_avg percentile round_to) (values found) in
      (
        sum_by-values (λ d. d.request_count) found
            ∙ subnet_data-counted requests range now s named
            ∙ ap
                (λ n.
                  sum_by (λ (d : SummaryKey × DailyUsageSummary). d.1.request_count)
                    (days_of range now s.summaries)
                  + n)
                (sym (length-sum_by (live_of range now s.usage_records))),
        sum_by-values (λ d. d.error_count) found
            ∙ subnet_data-counted errors range now s named
            ∙ ap
                (λ n.
                  sum_by (λ (d : SummaryKey × DailyUsageSummary). d.1.error_count)
                    (days_of range now s.summaries)
                  + n)
                (sym (error_sum (live_of range now s.usage_records))),
        sum_by-sorted le (λ u. u.request_count) shown ∙ sum_by-map _ _ (values found),
        sum_by-sorted le (λ u. u.error_count) shown ∙ sum_by-map _ _ (values found),
        sorted-IsSorted le (λ a b h. ground (arith, h)) (λ a b c h k. ground (arith, h, k)) shown,
      )
