-- ===== src/Admin/Metrics/Counting.antt =====
-- Sums over the rows that the metrics collect, and over what they are made of.
use tao_gateway.Base.{
  ℕ, ◌+◌, ◌≡◌, refl, sym, ap, ◌∙◌, inl, inr, String, false, ◌&&◌, none, some, List, [], ◌∷◌, map,
  nat_beq, nat_beq_iff, str_eq, eq_iff, nat_eq, string_eq, pair_eq, arith, All, All-of, Bool-cases,
  Option-cases,
}
use tao_gateway.Base.Dict.{Dict, lookup, insert, lookup-insert}
use tao_gateway.Base.Dict.Unique.{IsUnique, absent-All}
use tao_gateway.Base.Sums.{sum_by, sum_by-ext}
use tao_gateway.Base.Grouping.{
  group_by, group_by-IsUnique, sum_by-group_by, All-group_by, sum_by-insert,
}
use tao_gateway.Routing.Float.{Floats}
use tao_gateway.Usage.{UsageRecord}
use tao_gateway.Usage.Aggregation.{DailyUsageSummary, SummaryKey, Summaries}
use tao_gateway.Admin.Metrics.{
  netuid_name, summary_netuid_name, SubnetData, live_row, summary_row, put_rows, with_today,
  add_today,
}

module _ (x : Floats) (float_avg : List ℕ → x.F) (percentile : ℕ → List ℕ → ℕ)
    (round_to : ℕ → x.F → x.F) where
  abbrev pub Row : Type 0
  Row = SubnetData x float_avg percentile round_to

  -- A count of a row, with what it counts of a record and of a summary.
  pub record Counter : Type 0 where
    pub of_row : Row → ℕ
    pub of_record : UsageRecord → ℕ
    pub of_summary : SummaryKey × DailyUsageSummary → ℕ
    pub live_law :
        (k : ℕ × String) (l : List UsageRecord)
        → of_row (live_row x float_avg percentile round_to (k, l)) ≡ sum_by of_record l
    pub summary_law :
        (k : ℕ × String) (l : List (SummaryKey × DailyUsageSummary))
        → of_row (summary_row x float_avg percentile round_to (k, l)) ≡ sum_by of_summary l
    pub today_law :
        (row d : Row)
        → of_row (with_today x float_avg percentile round_to row (some d)) ≡ of_row d + of_row row

  module _ (c : Counter) where
    abbrev pub total : Dict ℕ Row → ℕ
    total found = sum_by (λ e. c.of_row e.1) found

    -- Where today's rows are added, nothing is lost.
    pub total-add_today :
        (rows : List Row) (found : Dict ℕ Row)
        → total (add_today x float_avg percentile round_to rows found)
          ≡ total found + sum_by c.of_row rows
    unfolding add_today
    total-add_today [] found = omega arith
    total-add_today (row ∷ rows) found =
        let w = λ (e : ℕ × Row). c.of_row e.1 in
        elim (Option-cases (lookup row.netuid found)) [
          | inl absent ↦ rw absent (
              omega (
                arith,
                total-add_today rows (insert row.netuid row found),
                rw absent at (sum_by-insert w row.netuid row found),
              ))
          | inr (d, here) ↦
              let new = with_today x float_avg percentile round_to row (some d) in
              rw here (
                omega (
                  arith,
                  total-add_today rows (insert row.netuid new found),
                  rw here at (sum_by-insert w row.netuid new found),
                  c.today_law row d,
                ))
        ]

    -- Where each netuid has one name, the rows of a query have one netuid each.
    module _ {L : Type 0} (name : ℕ → String) (row_of : (ℕ × String) × L → Row)
        (row_netuid : (e : (ℕ × String) × L) → (row_of e).netuid ≡ e.0.0) where
      abbrev IsNamed : (ℕ × String) × L → Type 0
      IsNamed e = e.0.1 ≡ name e.0.0

      other_netuid :
          (n m : ℕ) (s t : String)
          → s ≡ name n
          → t ≡ name m
          → nat_beq n m && str_eq s t ≡ false
          → nat_beq n m ≡ false
      other_netuid n m s t a b h = elim (Bool-cases (nat_beq n m)) [
        | inr e ↦ e
        | inl e ↦
            let same : s ≡ t = a ∙ ap name ((nat_beq_iff n m).0 e) ∙ sym b in
            ground (arith, eq_iff s t, rw e at h)
      ]

      still_fresh :
          (n : ℕ) (s : String) (row : Row) (found : Dict ℕ Row) (g : Dict (ℕ × String) L)
          → s ≡ name n
          → All (λ e. (nat_beq n e.0.0 && str_eq s e.0.1) ≡ false) g
          → All IsNamed g
          → All (λ e. lookup e.0.0 found ≡ none) g
          → All (λ e. lookup e.0.0 (insert n row found) ≡ none) g
      still_fresh n s row found [] at apart named fresh = tt
      still_fresh n s row found (((m, t), l) ∷ g) at apart named fresh = (
        rw (lookup-insert n m row found, other_netuid n m s t at named.0 apart.0) fresh.0,
        still_fresh n s row found g at apart.1 named.1 fresh.1,
      )

      total-put_rows :
          (g : Dict (ℕ × String) L) (found : Dict ℕ Row)
          → IsUnique g
          → All IsNamed g
          → All (λ e. lookup e.0.0 found ≡ none) g
          → total (put_rows x float_avg percentile round_to (map row_of g) found)
            ≡ total found + sum_by (λ e. c.of_row (row_of e)) g
      unfolding put_rows
      total-put_rows [] found u named fresh = omega arith
      total-put_rows (((n, s), l) ∷ g) found u named fresh =
          let row = row_of ((n, s), l) in
          let w = λ (e : ℕ × Row). c.of_row e.1 in
          let apart = absent-All (n, s) g u.0 in
          let later = still_fresh n s row found g named.0 apart named.1 fresh.1 in
          let moved : insert row.netuid row found ≡ insert n row found =
            ap (λ m. insert m row found) (row_netuid ((n, s), l)) in
          ap (λ d. total (put_rows x float_avg percentile round_to (map row_of g) d)) moved
          ∙ omega (
            arith,
            total-put_rows g (insert n row found) u.1 named.1 later,
            rw (fresh.0) at (sum_by-insert w n row found),
          )

    pub total-live :
        (l : List UsageRecord)
        → sum_by
            (λ g. c.of_row (live_row x float_avg percentile round_to g))
            (group_by netuid_name l)
          ≡ sum_by c.of_record l
    total-live l =
        sum_by-ext _ (λ g. sum_by c.of_record g.1) _
          (All-of (λ g. _ ≡ _) (λ g. c.live_law g.0 g.1) (group_by netuid_name l))
        ∙ sum_by-group_by netuid_name (λ k r. c.of_record r) l

    total-summaries :
        (l : Summaries)
        → sum_by
            (λ g. c.of_row (summary_row x float_avg percentile round_to g))
            (group_by summary_netuid_name l)
          ≡ sum_by c.of_summary l
    total-summaries l =
        sum_by-ext _ (λ g. sum_by c.of_summary g.1) _
          (All-of (λ g. _ ≡ _) (λ g. c.summary_law g.0 g.1) (group_by summary_netuid_name l))
        ∙ sum_by-group_by summary_netuid_name (λ k s. c.of_summary s) l

    module _ (name : ℕ → String) where
      pub put_live :
          (l : List UsageRecord)
          → All (λ (r : UsageRecord). r.subnet_name ≡ name r.netuid) l
          → total (
              put_rows x float_avg percentile round_to
                (map (live_row x float_avg percentile round_to) (group_by netuid_name l))
                [])
            ≡ sum_by c.of_record l
      put_live l named =
          let g = group_by netuid_name l in
          omega (
            arith,
            total-put_rows name (live_row x float_avg percentile round_to) (λ e. refl) g []
                (group_by-IsUnique netuid_name l)
                (All-group_by netuid_name (λ k. k.1 ≡ name k.0) l named)
                (All-of (λ e. none ≡ none) (λ e. refl) g),
            total-live l,
          )

      pub put_summaries :
          (l : Summaries)
          → All (λ (s : SummaryKey × DailyUsageSummary). s.1.subnet_name ≡ name s.0.netuid) l
          → total (
              put_rows x float_avg percentile round_to
                (map (summary_row x float_avg percentile round_to) (group_by summary_netuid_name l))
                [])
            ≡ sum_by c.of_summary l
      put_summaries l named =
          let g = group_by summary_netuid_name l in
          omega (
            arith,
            total-put_rows name (summary_row x float_avg percentile round_to) (λ e. refl) g []
                (group_by-IsUnique summary_netuid_name l)
                (All-group_by summary_netuid_name (λ k. k.1 ≡ name k.0) l named)
                (All-of (λ e. none ≡ none) (λ e. refl) g),
            total-summaries l,
          )
