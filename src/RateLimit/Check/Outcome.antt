-- ===== src/RateLimit/Check/Outcome.antt =====
-- The result that `check_rate_limit` makes of the script's reply: within every limit, or denied with
-- a delay.
use tao_gateway.Base.{ℕ, ◌+◌, ◌≤◌, ◌<◌, ◌≡◌, ◌⊎◌, inl, inr, true, false, arith}
use tao_gateway.Base.Int.{ℤ, pos, pos_part, sub_ℕ, max_ℤ, ◌≤ℤ◌}
use tao_gateway.RateLimit.Limits.{Limits, RateLimitResult}
use tao_gateway.RateLimit.Restrictive.Retry.{
  compute_most_restrictive_denied, compute_most_restrictive_allowed,
}
use tao_gateway.RateLimit.Script.{Reply}
use tao_gateway.RateLimit.Check.{result_of}

-- What holds of a result that lets the request through.
pub record IsWithin (limits : Limits) (x : RateLimitResult) : Type 0 where
  pub allowed : x.allowed ≡ true
  pub minute : x.minute_count ≤ limits.minute
  pub day : x.day_count ≤ limits.day
  pub month : x.month_count ≤ limits.month
  pub remaining : pos 0 ≤ℤ x.remaining
  pub no_delay : x.retry_after ≡ 0

-- What holds of a result that does not: every window whose count has reached its limit has reset
-- once the delay has passed.
pub record IsDelayed (limits : Limits) (later : ℕ) (x : RateLimitResult) : Type 0 where
  pub denied : x.allowed ≡ false
  pub remaining : x.remaining ≡ pos 0
  pub minute : (x.minute_count < limits.minute) ⊎ (x.minute_reset ≤ later + x.retry_after)
  pub day : (x.day_count < limits.day) ⊎ (x.day_reset ≤ later + x.retry_after)
  pub month : (x.month_count < limits.month) ⊎ (x.month_reset ≤ later + x.retry_after)

sub_ℕ_nonneg : (a b : ℕ) → b ≤ a → pos 0 ≤ℤ sub_ℕ a b
sub_ℕ_nonneg a b h = ground arith

sub_ℕ_nonpos : (a b : ℕ) → a ≤ b → sub_ℕ a b ≤ℤ pos 0
sub_ℕ_nonpos a b h = ground arith

sub_ℕ_pos : (a b : ℕ) → pos 1 ≤ℤ sub_ℕ a b → b < a
sub_ℕ_pos a b h = ground arith

three_nonneg :
    (x a b c : ℤ) (l l1 l2 l3 t t1 t2 t3 : ℕ)
    → (l ≡ l1) × (x ≡ a) × (t ≡ t1) ⊎ (l ≡ l2) × (x ≡ b) × (t ≡ t2) ⊎ (l ≡ l3) × (x ≡ c) × (t ≡ t3)
    → pos 0 ≤ℤ a
    → pos 0 ≤ℤ b
    → pos 0 ≤ℤ c
    → pos 0 ≤ℤ x
three_nonneg x a b c l l1 l2 l3 t t1 t2 t3 h ha hb hc = ground arith

module _ (limits : Limits) (raw : Reply) (now later : ℕ) where
  abbrev m_rem : ℤ
  m_rem = sub_ℕ limits.minute raw.minute_count

  abbrev d_rem : ℤ
  d_rem = sub_ℕ limits.day raw.day_count

  abbrev mon_rem : ℤ
  mon_rem = sub_ℕ limits.month raw.month_count

  abbrev reset_of : ℤ → ℕ
  reset_of ttl = now + pos_part (max_ℤ ttl (pos 0))

  pub result_of-IsWithin :
      raw.allowed ≡ 1
      → raw.minute_count ≤ limits.minute
      → raw.day_count ≤ limits.day
      → raw.month_count ≤ limits.month
      → IsWithin limits (result_of limits raw now later)
  unfolding result_of
  result_of-IsWithin a m d n =
      let c =
        compute_most_restrictive_allowed limits m_rem (reset_of raw.minute_ttl) d_rem
          (reset_of raw.day_ttl) mon_rem (reset_of raw.month_ttl) later in
      record {
        allowed = rw a;
        minute = m;
        day = d;
        month = n;
        remaining = rw a (
            three_nonneg _ m_rem d_rem mon_rem _ _ _ _ _ _ _ _ c.4 (sub_ℕ_nonneg _ _ m)
              (sub_ℕ_nonneg _ _ d) (sub_ℕ_nonneg _ _ n));
        no_delay = rw a c.0;
      }

  exhausted :
      (limits.minute ≤ raw.minute_count)
        ⊎ (limits.day ≤ raw.day_count)
        ⊎ (limits.month ≤ raw.month_count)
      → (m_rem ≤ℤ pos 0) ⊎ (d_rem ≤ℤ pos 0) ⊎ (mon_rem ≤ℤ pos 0)
  exhausted h = ground (
    arith,
    sub_ℕ_nonpos limits.minute raw.minute_count,
    sub_ℕ_nonpos limits.day raw.day_count,
    sub_ℕ_nonpos limits.month raw.month_count,
  )

  below_or : (l n t d : ℕ) → (pos 1 ≤ℤ sub_ℕ l n) ⊎ (t ≤ d) → (n < l) ⊎ (t ≤ d)
  below_or l n t d (inl h) = inl (sub_ℕ_pos l n h)
  below_or l n t d (inr h) = inr h

  pub result_of-IsDelayed :
      raw.allowed ≡ 0
      → (limits.minute ≤ raw.minute_count)
        ⊎ (limits.day ≤ raw.day_count)
        ⊎ (limits.month ≤ raw.month_count)
      → IsDelayed limits later (result_of limits raw now later)
  unfolding result_of
  result_of-IsDelayed a h =
      let c =
        compute_most_restrictive_denied limits m_rem (reset_of raw.minute_ttl) d_rem
          (reset_of raw.day_ttl) mon_rem (reset_of raw.month_ttl) later (exhausted h) in
      record {
        denied = rw a;
        remaining = rw a c.0;
        minute = rw a (below_or _ _ _ _ c.1);
        day = rw a (below_or _ _ _ _ c.2);
        month = rw a (below_or _ _ _ _ c.3);
      }
