-- ===== src/Usage/Aggregation/Days.antt =====
-- What the runs of the task leave in the table: for each day that a run aggregated, the summaries of
-- exactly the day's records. `owner` is the organisation of a key, `name` the name of a subnet.
use tao_gateway.Base.{
  ℕ, ◌+◌, ◌-◌, ◌*◌, ◌%◌, ◌≤◌, ◌≡◌, refl, ap, sym, ◌∙◌, inl, inr, String, true, false, Option, none,
  some, List, [], ◌∷◌, map, keep, All, All-map, arith, leb, nat_beq, if◌then◌else◌, Bool-cases,
  Option-cases, ◌==◌, keep-keep, keep-keep_none, All-keep,
}
use tao_gateway.Base.Dict.{Dict, lookup, or_else, lookup-here, lookup-there, lookup-insert_later}
use tao_gateway.Base.Dict.Unique.{IsUnique, All-lookup, All-insert, insert-IsUnique}
use tao_gateway.Base.Grouping.{
  group_by, group_by-IsUnique, lookup-group_by, All-group_by, non_empty,
}
use tao_gateway.Usage.{UsageRecord}
use tao_gateway.Usage.Aggregation.{
  DailyUsageSummary, SummaryKey, GroupKey, Summaries, day_us, date_of, group_key, in_range,
  summary_beq_iff, group_beq_iff, summary_eq, group_eq, summary_of, row_of, merged, upsert,
  upsert_all, query_rows,
}

module _ (percentile : ℕ → List ℕ → ℕ) (owner : ℕ → ℕ) (name : ℕ → String) where
  -- A record belongs to the organisation of its key and has the name of its subnet.
  abbrev pub IsNamed : UsageRecord → Type 0
  IsNamed r = (r.org_id ≡ owner r.api_key_id) × (r.subnet_name ≡ name r.netuid)

  abbrev pub IsNamedRow : SummaryKey × DailyUsageSummary → Type 0
  IsNamedRow (k, s) = (s.org_id ≡ owner k.api_key_id) × (s.subnet_name ≡ name k.netuid)

  abbrev pub group_of : SummaryKey → GroupKey
  group_of k = record { org_id = owner k.api_key_id; subnet_name = name k.netuid; key = k }

  abbrev pub summary_from : SummaryKey → Option (List UsageRecord) → Option DailyUsageSummary
  summary_from k none = none
  summary_from k (some l) = some (summary_of percentile (group_of k, l))

  -- The records that a summary counts, and the summary of them, if there are any.
  abbrev pub counted_in : SummaryKey → List UsageRecord → List UsageRecord
  counted_in k records = keep (λ r. group_key r == group_of k) records

  abbrev pub summary_at : SummaryKey → List UsageRecord → Option DailyUsageSummary
  summary_at k records = summary_from k (non_empty (counted_in k records))

  abbrev IsGroup : GroupKey → Type 0
  IsGroup g = g ≡ group_of g.key

  abbrev pub rows_of : List UsageRecord → List (SummaryKey × DailyUsageSummary)
  rows_of records = map (row_of percentile) (group_by group_key records)

  other : (g : GroupKey) (k : SummaryKey) → (g.key == k) ≡ false → (g == group_of k) ≡ false
  other g k e = ground (arith, summary_beq_iff g.key k, group_beq_iff g (group_of k))

  lookup-row_of :
      (k : SummaryKey) (groups : Dict GroupKey (List UsageRecord))
      → All (λ g. IsGroup g.0) groups
      → lookup k (map (row_of percentile) groups) ≡ summary_from k (lookup (group_of k) groups)
  lookup-row_of k [] h = refl
  lookup-row_of k ((g, l) ∷ groups) h = elim (Bool-cases (g.key == k)) [
    | inl e ↦
        let same : g ≡ group_of k = h.0 ∙ ap group_of ((summary_beq_iff g.key k).0 e) in
        rw same (lookup-here k _ _ ∙ ap (summary_from k) (sym (lookup-here (group_of k) l groups)))
    | inr e ↦
        lookup-there k g.key _ _ e
        ∙ lookup-row_of k groups h.1
        ∙ ap (summary_from k) (sym (lookup-there (group_of k) g l groups (other g k e)))
  ]

  group_key-IsGroup : (r : UsageRecord) → IsNamed r → IsGroup (group_key r)
  group_key-IsGroup r h = cc

  groups-IsGroup :
      (records : List UsageRecord)
      → All IsNamed records
      → All (λ g. IsGroup g.0) (group_by group_key records)
  groups-IsGroup records h =
      All-group_by group_key IsGroup records
        (All-map IsNamed (λ r. IsGroup (group_key r)) group_key-IsGroup records h)

  pub dated :
      (k : SummaryKey) (r : UsageRecord)
      → (group_key r == group_of k) ≡ true
      → date_of r.created_at ≡ k.summary_date
  dated k r e =
      ap (λ (g : GroupKey). g.key.summary_date) ((group_beq_iff (group_key r) (group_of k)).0 e)

  -- A query has one row for each key with records, and it is their summary.
  pub lookup-rows_of :
      (k : SummaryKey) (records : List UsageRecord)
      → All IsNamed records
      → lookup k (rows_of records) ≡ summary_at k records
  lookup-rows_of k records h =
      lookup-row_of k (group_by group_key records) (groups-IsGroup records h)
      ∙ ap (summary_from k) (lookup-group_by group_key (group_of k) records)

  -- Each row is a summary of the one that owns the key, for the subnet's name.
  groups-IsNamedRow :
      (groups : Dict GroupKey (List UsageRecord))
      → All (λ g. IsGroup g.0) groups
      → All IsNamedRow (map (row_of percentile) groups)
  groups-IsNamedRow [] h = tt
  groups-IsNamedRow ((g, l) ∷ groups) h = (
    (ap (λ (k : GroupKey). k.org_id) h.0, ap (λ (k : GroupKey). k.subnet_name) h.0),
    groups-IsNamedRow groups h.1,
  )

  rows-IsUnique :
      (groups : Dict GroupKey (List UsageRecord))
      → All (λ g. IsGroup g.0) groups
      → IsUnique groups
      → IsUnique (map (row_of percentile) groups)
  rows-IsUnique [] h u = tt
  rows-IsUnique ((g, l) ∷ groups) h u = (
    lookup-row_of g.key groups h.1
        ∙ ap (summary_from g.key) (ap (λ x. lookup x groups) (sym h.0) ∙ u.0),
    rows-IsUnique groups h.1 u.1,
  )

  pub rows_of-IsUnique :
      (records : List UsageRecord) → All IsNamed records → IsUnique (rows_of records)
  rows_of-IsUnique records h =
      rows-IsUnique (group_by group_key records) (groups-IsGroup records h)
        (group_by-IsUnique group_key records)

  merged-eq :
      (k : SummaryKey) (new : DailyUsageSummary) (table : Summaries)
      → All IsNamedRow table
      → IsNamedRow (k, new)
      → merged percentile new (lookup k table) ≡ new
  merged-eq k new table h n = elim (Option-cases (lookup k table)) [
    | inl e ↦ rw e refl
    | inr (old, e) ↦
        let o = All-lookup IsNamedRow k old table h e in rw e (ground (arith, o.0, o.1, n.0, n.1))
  ]

  -- The rows overwrite the table, and leave its other rows.
  pub lookup-upsert_all :
      (k : SummaryKey) (rows : List (SummaryKey × DailyUsageSummary)) (table : Summaries)
      → IsUnique rows
      → All IsNamedRow rows
      → All IsNamedRow table
      → (lookup k (upsert_all percentile rows table) ≡ or_else (lookup k rows) (lookup k table))
        × All IsNamedRow (upsert_all percentile rows table)
  unfolding upsert_all
  lookup-upsert_all k [] table u n h = (refl, h)
  lookup-upsert_all k ((j, new) ∷ rows) table u n h =
      let table' = upsert percentile (j, new) table in
      let rest =
        lookup-upsert_all k rows table' u.1 n.1
          (All-insert IsNamedRow j _ table (rw (merged-eq j new table h n.0) n.0) h) in
      let v = merged percentile new (lookup j table) in
      (
        rest.0
            ∙ lookup-insert_later k j v rows table u.0
            ∙ ap (λ w. or_else (lookup k ((j, w) ∷ rows)) (lookup k table))
                (merged-eq j new table h n.0),
        rest.1,
      )

  pub counted_in-recent :
      (first : ℕ) (k : SummaryKey) (records : List UsageRecord)
      → first ≤ k.summary_date
      → counted_in k (keep (λ r. leb (first * day_us) r.created_at) records) ≡ counted_in k records
  counted_in-recent first k records h =
      keep-keep (λ r. group_key r == group_of k) _ records (λ r e. ground (arith, dated k r e))

  -- The query for the day of `target` has the summaries of that day's keys, and no others.
  pub lookup-query_rows :
      (k : SummaryKey) (target : ℕ) (records : List UsageRecord)
      → All IsNamed records
      → lookup k (query_rows percentile (target - target % day_us) records)
        ≡ (if nat_beq (date_of target) k.summary_date then summary_at k records else none)
  lookup-query_rows k target records h =
      let start = target - target % day_us in
      let day = in_range start (start + day_us) in
      lookup-rows_of k (keep day records) (All-keep IsNamed day records h)
      ∙ elim (Bool-cases (nat_beq (date_of target) k.summary_date)) [
        | inl e ↦ rw e (
            ap (λ l. summary_from k (non_empty l))
              (keep-keep (λ r. group_key r == group_of k) day records
                (λ r d. ground (arith, dated k r d))))
        | inr e ↦ rw e (
            ap (λ l. summary_from k (non_empty l))
              (keep-keep_none (λ r. group_key r == group_of k) day records
                (λ r d. ground (arith, dated k r d))))
      ]

  -- A day's upserts: the summaries of its records, and the other rows as they were.
  pub lookup-aggregated :
      (k : SummaryKey) (target : ℕ) (records : List UsageRecord) (table : Summaries)
      → All IsNamed records
      → All IsNamedRow table
      → let table' =
          upsert_all percentile (query_rows percentile (target - target % day_us) records) table in
        (lookup k table'
          ≡ or_else
              (if nat_beq (date_of target) k.summary_date then summary_at k records else none)
              (lookup k table))
        × All IsNamedRow table'
  lookup-aggregated k target records table h n =
      let start = target - target % day_us in
      let today = keep (in_range start (start + day_us)) records in
      let named = All-keep IsNamed (in_range start (start + day_us)) records h in
      let all =
        lookup-upsert_all k (query_rows percentile start records) table
          (rows_of-IsUnique today named)
          (groups-IsNamedRow (group_by group_key today) (groups-IsGroup today named)) n in
      (all.0 ∙ ap (λ o. or_else o (lookup k table)) (lookup-query_rows k target records h), all.1)

pub upsert_all-IsUnique :
    (percentile : ℕ → List ℕ → ℕ) (rows : List (SummaryKey × DailyUsageSummary)) (table : Summaries)
    → IsUnique table
    → IsUnique (upsert_all percentile rows table)
unfolding upsert_all
upsert_all-IsUnique percentile [] table u = u
upsert_all-IsUnique percentile ((k, new) ∷ rows) table u =
    upsert_all-IsUnique percentile rows (upsert percentile (k, new) table)
      (insert-IsUnique k _ table u)
