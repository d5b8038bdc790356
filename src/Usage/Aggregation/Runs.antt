-- ===== src/Usage/Aggregation/Runs.antt =====
-- What a sequence of runs of the task leaves: a summary for each day that a run found complete.
use tao_gateway.Base.{
  ℕ, ◌+◌, ◌-◌, ◌*◌, ◌≤◌, ◌≡◌, refl, ap, sym, ◌∙◌, inl, inr, String, Bool, true, false, ◌&&◌, Option,
  none, some, List, [], ◌∷◌, keep, any, All, arith, leb, nat_beq, if◌then◌else◌, Bool-cases,
  keep-keep, All-keep,
}
use tao_gateway.Base.Dict.{lookup, or_else}
use tao_gateway.Base.Dict.Unique.{IsUnique}
use tao_gateway.Base.Grouping.{non_empty}
use tao_gateway.Usage.{UsageRecord}
use tao_gateway.Usage.Aggregation.{
  DailyUsageSummary, SummaryKey, Store, Run, day_us, date_of, summary_eq, group_eq, aggregate_day,
  cleanup_old_records, run_once,
}
use tao_gateway.Usage.Aggregation.Days.{
  IsNamed, IsNamedRow, counted_in, summary_at, summary_from, counted_in-recent, lookup-aggregated,
  upsert_all-IsUnique,
}

-- The runs, one after the other; one that raises is only logged.
unfoldable pub runs : (ℕ → List ℕ → ℕ) → ℕ → List Run → Store → Store
runs percentile retention [] s = s
runs percentile retention (run ∷ more) s =
    runs percentile retention more (run_once percentile retention run s).0

-- The day that a run aggregates, the one before its own.
abbrev pub covers : Run → ℕ → Bool
covers run date = run.commits && nat_beq (date_of (run.now - day_us)) date

abbrev pub covered : List Run → ℕ → Bool
covered past date = any (λ run. covers run date) past

-- The records of the dates from `first`.
abbrev pub since : ℕ → List UsageRecord → List UsageRecord
since first records = keep (λ r. leb (first * day_us) r.created_at) records

module _ (percentile : ℕ → List ℕ → ℕ) (owner : ℕ → ℕ) (name : ℕ → String)
    (first retention : ℕ) where
  -- Rows and records have their owners and names, and the records since `first` are these.
  pub record IsSound (records : List UsageRecord) (s : Store) : Type 0 where
    pub named : All (IsNamed percentile owner name) s.usage_records
    pub named_rows : All (IsNamedRow percentile owner name) s.summaries
    pub unique : IsUnique s.summaries
    pub kept : since first s.usage_records ≡ since first records

  summary_at-since :
      (k : SummaryKey) (l m : List UsageRecord)
      → first ≤ k.summary_date
      → since first l ≡ since first m
      → summary_at percentile owner name k l ≡ summary_at percentile owner name k m
  summary_at-since k l m h e =
      let part = λ (x : List UsageRecord). summary_from percentile owner name k (non_empty x) in
      ap part (sym (counted_in-recent percentile owner name first k l h))
      ∙ ap (λ x. part (counted_in percentile owner name k x)) e
      ∙ ap part (counted_in-recent percentile owner name first k m h)

  -- The summary of a key once the runs are through, from the row before them.
  abbrev pub summary_after :
      List UsageRecord → List Run → SummaryKey → Option DailyUsageSummary → Option DailyUsageSummary
  summary_after records past k row =
      or_else
        (if covered past k.summary_date then summary_at percentile owner name k records else none)
        row

  once :
      {x y : Option DailyUsageSummary} (b : Bool) (o : Option DailyUsageSummary)
      → x ≡ y
      → or_else (if b then x else none) o
        ≡ or_else (if if b then true else false then y else none) o
  once true o e = ap (λ z. or_else z o) e
  once false o e = refl

  twice :
      (x o : Option DailyUsageSummary) (b c : Bool)
      → or_else (if c then x else none) (or_else (if if b then true else false then x else none) o)
        ≡ or_else (if if b then true else c then x else none) o
  twice none o b c = ground arith
  twice (some s) o true true = refl
  twice (some s) o true false = refl
  twice (some s) o false c = refl

  -- Old records go, and none since `first`.
  cleanup-since :
      (deletes : Bool) (later : ℕ) (records : List UsageRecord)
      → later ≤ (first + retention) * day_us
      → since first (cleanup_old_records deletes later retention records).0 ≡ since first records
  unfolding cleanup_old_records
  cleanup-since true later records h =
      keep-keep (λ r. leb (first * day_us) r.created_at) _ records (λ r e. ground arith)
  cleanup-since false later records h = refl

  cleanup-named :
      (deletes : Bool) (later : ℕ) (records : List UsageRecord)
      → All (IsNamed percentile owner name) records
      → All (IsNamed percentile owner name) (cleanup_old_records deletes later retention records).0
  unfolding cleanup_old_records
  cleanup-named true later records h = All-keep (IsNamed percentile owner name) _ records h
  cleanup-named false later records h = h

  run_once_lem :
      (run : Run) (k : SummaryKey) (s : Store) (records : List UsageRecord)
      → run.later ≤ (first + retention) * day_us
      → IsSound records s
      → first ≤ k.summary_date
      → let s' = (run_once percentile retention run s).0 in
        IsSound records s'
        × (lookup k s'.summaries ≡ summary_after records (run ∷ []) k (lookup k s.summaries))
  unfolding run_once aggregate_day
  run_once_lem run k s records r h f = elim (Bool-cases run.commits) [
    | inl c ↦
        let target = run.now - day_us in
        let all =
          lookup-aggregated percentile owner name k target s.usage_records s.summaries h.named
            h.named_rows in
        simp c (
          (
            record {
              named = cleanup-named run.deletes run.later s.usage_records h.named;
              named_rows = all.1;
              unique = upsert_all-IsUnique percentile _ s.summaries h.unique;
              kept = cleanup-since run.deletes run.later s.usage_records r ∙ h.kept;
            },
            all.0
                ∙ once (nat_beq (date_of target) k.summary_date) _
                    (summary_at-since k _ _ f h.kept),
          ))
    | inr c ↦ simp c ((h, refl))
  ]

  -- Where each run happens within the retention of the date `first`, and rows and records have the
  -- owner of their key and the name of their subnet, the summary of a key at a date from `first` on
  -- is, after any runs, that of all records of the key and the date if a run aggregated the date and
  -- there are any, however often it did; else the summary is what it was.
  pub runs_lem :
      (past : List Run) (k : SummaryKey) (s : Store) (records : List UsageRecord)
      → All (λ run. run.later ≤ (first + retention) * day_us) past
      → IsSound records s
      → first ≤ k.summary_date
      → IsSound records (runs percentile retention past s)
        × (lookup k (runs percentile retention past s).summaries
            ≡ summary_after records past k (lookup k s.summaries))
  unfolding runs
  runs_lem [] k s records r h f = (h, refl)
  runs_lem (run ∷ past) k s records r h f =
      let s' = (run_once percentile retention run s).0 in
      let step = run_once_lem run k s records r.0 h f in
      let rest = runs_lem past k s' records r.1 step.0 f in
      let x = summary_at percentile owner name k records in
      (
        rest.0,
        rest.1
            ∙ ap (summary_after records past k) step.1
            ∙ twice x (lookup k s.summaries) (covers run k.summary_date)
                (covered past k.summary_date),
      )
