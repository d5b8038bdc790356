-- ===== src/Usage/Quota/Month.antt =====
-- The summaries of a month, after the runs of the task, against its records.
use tao_gateway.Base.{
  ℕ, ◌+◌, ◌*◌, ◌≤◌, ◌<◌, ◌≡◌, refl, ap, sym, ◌∙◌, inl, inr, String, Bool, true, false, ◌&&◌, Option,
  none, some, List, length, keep, All, All-of, arith, leb, ltb, nat_beq, nat_eq, if◌then◌else◌,
  Bool-cases, Option-cases, leb→le, keep-keep, keep-keep_none, All-keep, ◌==◌,
}
use tao_gateway.Base.Dict.{lookup, or_else}
use tao_gateway.Base.Dict.Unique.{All-lookup, keep-IsUnique, sum_by-same, lookup-keep_key}
use tao_gateway.Base.Sums.{
  sum_by, sum_by-keep, sum_by-ext, sum_by-map, sum_by-if, length-keep_sum, length-keep_split,
  length-keep-keep,
}
use tao_gateway.Base.Grouping.{group_by, non_empty, sum_by-group_by}
use tao_gateway.Usage.{UsageRecord}
use tao_gateway.Usage.Aggregation.{
  DailyUsageSummary, SummaryKey, Summaries, Store, Run, day_us, date_of, summary_eq, group_eq,
  group_key, GroupKey, row_of,
}
use tao_gateway.Usage.Aggregation.Days.{
  IsNamed, rows_of, rows_of-IsUnique, lookup-rows_of, dated, summary_at, summary_from, group_of,
}
use tao_gateway.Usage.Aggregation.Runs.{runs, IsSound, runs_lem, covered}
use tao_gateway.Usage.Quota.Rows.{is_request, requests_in, requests_counted}

abbrev pub is_counted : ℕ → ℕ → ℕ → GroupKey → Bool
is_counted org_id n first g =
    nat_beq g.key.netuid n && (nat_beq g.org_id org_id && leb first g.key.summary_date)

module _ (percentile : ℕ → List ℕ → ℕ) (owner : ℕ → ℕ) (name : ℕ → String) (first today : ℕ) where
  -- The records of the days from `first` to yesterday.
  abbrev pub is_before : UsageRecord → Bool
  is_before r = leb first (date_of r.created_at) && ltb (date_of r.created_at) today

  abbrev pub before : List UsageRecord → List UsageRecord
  before records = keep is_before records

  summed_rows :
      (org_id n : ℕ) (l : List UsageRecord)
      → sum_by (requests_counted org_id n first) (rows_of percentile owner name l)
        ≡ length (keep (λ r. is_counted org_id n first (group_key r)) l)
  summed_rows org_id n l =
      sum_by-map (requests_counted org_id n first) (row_of percentile) (group_by group_key l)
      ∙ sum_by-ext _ (λ g. sum_by (λ r. if is_counted org_id n first g.0 then 1 else 0) g.1)
          (group_by group_key l)
          (All-of _ (λ g. sym (sum_by-if (is_counted org_id n first g.0) g.1))
            (group_by group_key l))
      ∙ sum_by-group_by group_key (λ g r. if is_counted org_id n first g then 1 else 0) l
      ∙ sym (length-keep_sum (λ r. is_counted org_id n first (group_key r)) l)

  pub summed_before :
      (org_id n : ℕ) (records : List UsageRecord)
      → first ≤ today
      → sum_by (requests_counted org_id n first) (rows_of percentile owner name (before records))
          + requests_in org_id n today today records
        ≡ requests_in org_id n first today records
  summed_before org_id n records h =
      let c = λ (r : UsageRecord). is_counted org_id n first (group_key r) in
      omega (
        arith,
        summed_rows org_id n (before records),
        length-keep-keep c is_before records,
        length-keep_split (λ r. is_before r && c r) (is_request org_id n today today)
            (is_request org_id n first today) records (λ r. ground arith),
      )

  lookup-before :
      (k : SummaryKey) (records : List UsageRecord)
      → All (IsNamed percentile owner name) records
      → lookup k (rows_of percentile owner name (before records)) ≡ (
          if leb first k.summary_date && ltb k.summary_date today
          then summary_at percentile owner name k records
          else none)
  lookup-before k records h =
      let part = λ (l : List UsageRecord). summary_from percentile owner name k (non_empty l) in
      let same = λ (r : UsageRecord). group_key r == group_of percentile owner name k in
      lookup-rows_of percentile owner name k (before records)
        (All-keep (IsNamed percentile owner name) is_before records h)
      ∙ elim (Bool-cases (leb first k.summary_date && ltb k.summary_date today)) [
        | inl e ↦ rw e (
            ap part (
              keep-keep same is_before records
                (λ r d. ground (arith, dated percentile owner name k r d))))
        | inr e ↦ rw e (
            ap part (
              keep-keep_none same is_before records
                (λ r d. ground (arith, dated percentile owner name k r d))))
      ]

  or_else-none :
      (b : Bool) (o : Option DailyUsageSummary)
      → or_else (if b then o else none) none ≡ (if b then o else none)
  or_else-none true none = refl
  or_else-none true (some row) = refl
  or_else-none false o = refl

  module _ (retention : ℕ) where
    -- No row of the table is of a date since `first`.
    abbrev pub IsFresh : Summaries → Type 0
    IsFresh table = All (λ (x : SummaryKey × DailyUsageSummary). x.0.summary_date < first) table

    absent :
        (k : SummaryKey) (table : Summaries)
        → first ≤ k.summary_date
        → IsFresh table
        → lookup k table ≡ none
    absent k table h f = elim (Option-cases (lookup k table)) [
      | inl e ↦ e
      | inr (row, e) ↦
          absurd (omega (arith, All-lookup (λ x. x.0.summary_date < first) k row table f e))
    ]

    -- What the table has since `first` is what a query over these records would give.
    pub lookup-month :
        (past : List Run) (k : SummaryKey) (s : Store)
        → All (λ run. run.later ≤ (first + retention) * day_us) past
        → IsSound percentile owner name first retention s.usage_records s
        → IsFresh s.summaries
        → ((date : ℕ) → first ≤ date → covered past date ≡ ltb date today)
        → lookup k
            (keep (λ x. leb first x.0.summary_date) (runs percentile retention past s).summaries)
          ≡ lookup k (rows_of percentile owner name (before s.usage_records))
    lookup-month past k s r h f c =
        let records = s.usage_records in
        let x = summary_at percentile owner name k records in
        lookup-keep_key (λ j. leb first j.summary_date) k
          (runs percentile retention past s).summaries
        ∙ elim (Bool-cases (leb first k.summary_date)) [
          | inl e ↦
              let since_first = leb→le first k.summary_date e in
              rw e (
                (runs_lem percentile owner name first retention past k s records r h since_first).1
                ∙ ap (or_else (if covered past k.summary_date then x else none))
                    (absent k s.summaries since_first f)
                ∙ or_else-none (covered past k.summary_date) x
                ∙ ap (λ b. if b then x else none) (c k.summary_date since_first))
          | inr e ↦ rw e refl
        ]
        ∙ sym (lookup-before k records h.named)

    runs-IsSound :
        (past : List Run) (s : Store)
        → All (λ run. run.later ≤ (first + retention) * day_us) past
        → IsSound percentile owner name first retention s.usage_records s
        → IsSound percentile owner name first retention s.usage_records
            (runs percentile retention past s)
    runs-IsSound past s r h =
        (runs_lem percentile owner name first retention past
          (record { api_key_id = 0; netuid = 0; summary_date = first }) s s.usage_records r h
          (omega arith)).0

    pub summed_month :
        (past : List Run) (org_id n : ℕ) (s : Store)
        → All (λ run. run.later ≤ (first + retention) * day_us) past
        → IsSound percentile owner name first retention s.usage_records s
        → IsFresh s.summaries
        → ((date : ℕ) → first ≤ date → covered past date ≡ ltb date today)
        → sum_by (requests_counted org_id n first) (runs percentile retention past s).summaries
          ≡ sum_by
              (requests_counted org_id n first)
              (rows_of percentile owner name (before s.usage_records))
    summed_month past org_id n s r h f c =
        let table = (runs percentile retention past s).summaries in
        let month = λ (x : SummaryKey × DailyUsageSummary). leb first x.0.summary_date in
        sum_by-ext _ (λ x. if month x then requests_counted org_id n first x else 0) table
          (All-of _ (λ x. ground arith) table)
        ∙ sym (sum_by-keep (requests_counted org_id n first) month table)
        ∙ sum_by-same (requests_counted org_id n first) (keep month table)
            (rows_of percentile owner name (before s.usage_records))
            (keep-IsUnique month table (runs-IsSound past s r h).unique)
            (rows_of-IsUnique percentile owner name (before s.usage_records)
              (All-keep (IsNamed percentile owner name) is_before s.usage_records h.named))
            (λ k. lookup-month past k s r h f c)

    pub today_kept :
        (past : List Run) (org_id n : ℕ) (s : Store)
        → All (λ run. run.later ≤ (first + retention) * day_us) past
        → IsSound percentile owner name first retention s.usage_records s
        → first ≤ today
        → requests_in org_id n today today (runs percentile retention past s).usage_records
          ≡ requests_in org_id n today today s.usage_records
    today_kept past org_id n s r h f =
        let p = is_request org_id n today today in
        let recent = λ (u : UsageRecord). leb (first * day_us) u.created_at in
        ap length (
          sym (
            keep-keep p recent (runs percentile retention past s).usage_records
              (λ u e. ground arith))
          ∙ ap (keep p) (runs-IsSound past s r h).kept
          ∙ keep-keep p recent s.usage_records (λ u e. ground arith))
