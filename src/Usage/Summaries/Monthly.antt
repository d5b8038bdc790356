-- ===== src/Usage/Summaries/Monthly.antt =====
-- A month is the sum of its days.

use tao_gateway.Base.{
  ℕ, ◌+◌, ◌≡◌, refl, ap, sym, ◌∙◌, inl, inr, String, Bool, true, Option, none, some, List, [], ◌∷◌,
  keep, any, All, All-map, arith, string_eq, eq_iff, ◌==◌, Bool-cases,
}
use mathlib.Core.Path.{subst}
use tao_gateway.Base.Dict.{Dict, lookup, insert, lookup-insert}
use tao_gateway.Base.Dict.Unique.{IsUnique, insert-IsUnique, IsUnique-finds}
use tao_gateway.Base.Sorting.{All-sorted, sum_by-sorted}
use tao_gateway.Base.Sums.{sum_by}
use tao_gateway.Base.Grouping.{sum_by-insert, weight_of}
use tao_gateway.Usage.Summaries.{
  UsageSummary, empty_summary, max_of, month_key, add_summary, or_empty_summary, collect_months,
  period_le, values, aggregate_to_monthly,
}

-- The greatest of a column, and of a number.
abbrev pub max_by : (UsageSummary → ℕ) → ℕ → List UsageSummary → ℕ
max_by f m [] = m
max_by f m (s ∷ l) = max_by f (max_of m (f s)) l

-- A summary with others added: the sums of the counts, the greatest of the latencies.
abbrev pub with_days : UsageSummary → List UsageSummary → UsageSummary
with_days m l = record {
  period = m.period;
  request_count = m.request_count + sum_by (λ s. s.request_count) l;
  success_count = m.success_count + sum_by (λ s. s.success_count) l;
  error_count = m.error_count + sum_by (λ s. s.error_count) l;
  p50_latency_ms = max_by (λ s. s.p50_latency_ms) m.p50_latency_ms l;
  p95_latency_ms = max_by (λ s. s.p95_latency_ms) m.p95_latency_ms l;
  p99_latency_ms = max_by (λ s. s.p99_latency_ms) m.p99_latency_ms l;
  total_prompt_tokens = m.total_prompt_tokens + sum_by (λ s. s.total_prompt_tokens) l;
  total_completion_tokens = m.total_completion_tokens + sum_by (λ s. s.total_completion_tokens) l;
}

-- The days of a month.
abbrev pub days_of : String → List UsageSummary → List UsageSummary
days_of month l = keep (λ s. month_key s == month) l

abbrev pub month_of : String → Option UsageSummary → List UsageSummary → Option UsageSummary
month_of month o [] = o
month_of month o (s ∷ l) = some (with_days (or_empty_summary month o) (s ∷ l))

with_days-add :
    (m s : UsageSummary) (l : List UsageSummary)
    → with_days (add_summary s m) l ≡ with_days m (s ∷ l)
with_days-add m s l = ground arith

with_days-nil : (m : UsageSummary) → with_days m [] ≡ m
with_days-nil m = ground arith

month_of-step :
    (month : String) (o : Option UsageSummary) (s : UsageSummary) (l : List UsageSummary)
    → month_of month (some (add_summary s (or_empty_summary month o))) l
      ≡ some (with_days (or_empty_summary month o) (s ∷ l))
month_of-step month o s [] =
    ap some (sym (with_days-nil _) ∙ with_days-add (or_empty_summary month o) s [])
month_of-step month o s (t ∷ l) = ap some (with_days-add (or_empty_summary month o) s (t ∷ l))

lookup-collect :
    (month : String) (l : List UsageSummary) (monthly : Dict String UsageSummary)
    → lookup month (collect_months l monthly)
      ≡ month_of month (lookup month monthly) (days_of month l)
unfolding collect_months
lookup-collect month [] monthly = refl
lookup-collect month (s ∷ l) monthly =
    let key = month_key s in
    let m = add_summary s (or_empty_summary key (lookup key monthly)) in
    lookup-collect month l (insert key m monthly)
    ∙ ap (λ o. month_of month o (days_of month l)) (lookup-insert key month m monthly)
    ∙ elim (Bool-cases (key == month)) [
      | inl e ↦
          let same : key ≡ month = (eq_iff key month).0 e in
          rw (e, same) (month_of-step month (lookup month monthly) s (days_of month l))
      | inr e ↦ rw e refl
    ]

collect-IsUnique :
    (l : List UsageSummary) (monthly : Dict String UsageSummary)
    → IsUnique monthly
    → IsUnique (collect_months l monthly)
unfolding collect_months
collect-IsUnique [] monthly u = u
collect-IsUnique (s ∷ l) monthly u =
    collect-IsUnique l _ (insert-IsUnique (month_key s) _ monthly u)

-- The summary of a month: the sums and the greatest latencies of its days, and it has days.
abbrev pub IsMonth : List UsageSummary → UsageSummary → Type 0
IsMonth l m =
    (m ≡ with_days (empty_summary m.period) (days_of m.period l))
    × (any (λ s. month_key s == m.period) l ≡ true)

any-keep :
    (p : UsageSummary → Bool) (l : List UsageSummary) (d : UsageSummary) (ds : List UsageSummary)
    → keep p l ≡ d ∷ ds
    → any p l ≡ true
any-keep p [] d ds h = cc
any-keep p (s ∷ l) d ds h = elim (Bool-cases (p s)) [
  | inl e ↦ rw e refl
  | inr e ↦ rw e (any-keep p l d ds (rw e at h))
]

month_of-some :
    (month : String) (v : UsageSummary) (l ds : List UsageSummary)
    → days_of month l ≡ ds
    → month_of month none ds ≡ some v
    → (v ≡ with_days (empty_summary month) ds) × (any (λ s. month_key s == month) l ≡ true)
month_of-some month v l [] e h = cc
month_of-some month v l (d ∷ ds) e h = (cc, any-keep (λ s. month_key s == month) l d ds e)

month_of-IsMonth :
    (month : String) (v : UsageSummary) (l : List UsageSummary)
    → month_of month none (days_of month l) ≡ some v
    → IsMonth l v
month_of-IsMonth month v l h =
    let got = month_of-some month v l (days_of month l) refl h in
    let named : month ≡ v.period = sym (ap (λ (m : UsageSummary). m.period) got.0) in
    subst
      (λ k.
        (v ≡ with_days (empty_summary k) (days_of k l)) × (any (λ s. month_key s == k) l ≡ true))
      named got

values-All :
    (P : UsageSummary → Type 0) (d : Dict String UsageSummary)
    → All (λ x. P x.1) d
    → All P (values d)
values-All P [] h = tt
values-All P ((k, v) ∷ d) h = (h.0, values-All P d h.1)

sum_by-values :
    (f : UsageSummary → ℕ) (d : Dict String UsageSummary)
    → sum_by f (values d) ≡ sum_by (λ x. f x.1) d
sum_by-values f [] = refl
sum_by-values f ((k, v) ∷ d) = omega (arith, sum_by-values f d)

module _ (f : UsageSummary → ℕ) (adds : (s m : UsageSummary) → f (add_summary s m) ≡ f m + f s)
    (starts : (period : String) → f (empty_summary period) ≡ 0) where
  sum_by-collect :
      (l : List UsageSummary) (monthly : Dict String UsageSummary)
      → sum_by (λ x. f x.1) (collect_months l monthly) ≡ sum_by (λ x. f x.1) monthly + sum_by f l
  unfolding collect_months
  sum_by-collect [] monthly = omega arith
  sum_by-collect (s ∷ l) monthly =
      let key = month_key s in
      let o = lookup key monthly in
      let m = add_summary s (or_empty_summary key o) in
      omega (
        arith,
        sum_by-collect l (insert key m monthly),
        sum_by-insert (λ (x : String × UsageSummary). f x.1) key m monthly,
        adds s (or_empty_summary key o),
        old key o,
      )
    where
      old :
          (key : String) (o : Option UsageSummary)
          → weight_of (λ (x : String × UsageSummary). f x.1) key o ≡ f (or_empty_summary key o)
      old key none = sym (starts key)
      old key (some m) = refl

  conserved : (l : List UsageSummary) → sum_by f (aggregate_to_monthly l) ≡ sum_by f l
  unfolding aggregate_to_monthly
  conserved l = omega (
    arith,
    sum_by-sorted period_le f (values (collect_months l [])),
    sum_by-values f (collect_months l []),
    sum_by-collect l [],
  )

-- A list of daily summaries as months: each summary of a month has the sums of the counts and tokens
-- of all its days and the greatest of their latencies, and has a day; and no request, success, error
-- or token of a day is lost or counted twice.
pub aggregate_to_monthly_lem :
    (l : List UsageSummary)
    → let months = aggregate_to_monthly l in
      All (IsMonth l) months
      × (sum_by (λ s. s.request_count) months ≡ sum_by (λ s. s.request_count) l)
      × (sum_by (λ s. s.success_count) months ≡ sum_by (λ s. s.success_count) l)
      × (sum_by (λ s. s.error_count) months ≡ sum_by (λ s. s.error_count) l)
      × (sum_by (λ s. s.total_prompt_tokens) months ≡ sum_by (λ s. s.total_prompt_tokens) l)
      × (sum_by (λ s. s.total_completion_tokens) months ≡ sum_by (λ s. s.total_completion_tokens) l)
unfolding aggregate_to_monthly
aggregate_to_monthly_lem l = (
  All-sorted period_le (IsMonth l) (values (collect_months l [])) (
      values-All (IsMonth l) (collect_months l []) (
        All-map _ (λ x. IsMonth l x.1)
          (λ x h. month_of-IsMonth x.0 x.1 l (sym (lookup-collect x.0 l []) ∙ h))
          (collect_months l []) (IsUnique-finds (collect_months l []) (collect-IsUnique l [] tt)))),
  conserved (λ s. s.request_count) (λ s m. refl) (λ p. refl) l,
  conserved (λ s. s.success_count) (λ s m. refl) (λ p. refl) l,
  conserved (λ s. s.error_count) (λ s m. refl) (λ p. refl) l,
  conserved (λ s. s.total_prompt_tokens) (λ s m. refl) (λ p. refl) l,
  conserved (λ s. s.total_completion_tokens) (λ s m. refl) (λ p. refl) l,
)
