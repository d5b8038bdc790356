-- ===== src/RateLimit/Script.antt =====
-- scripts/rate_limit.lua, which Redis runs as one atomic operation: three counters, each with its
-- limit and its window.
pub mod Effect
pub mod Expiry
pub mod Reach
use tao_gateway.Base.{ℕ, String, Bool, ◌||◌, leb, nat_beq, str_append, if◌then◌else◌}
use tao_gateway.Base.Int.{ℤ}
use tao_gateway.RateLimit.Limits.{Limits}
use tao_gateway.RateLimit.Store.{CounterStore, or_zero}

-- `KEYS`: the keys of the three counters.
pub record Keys : Type 0 where
  pub minute : String
  pub day : String
  pub month : String

-- `f"rate:{key_id}:{subnet_id}:m"`, and `:d` and `:M`.
unfoldable pub keys_of : String → String → Keys
keys_of key_id subnet_id =
    let stem = str_append (str_append (str_append (str_append "rate:" key_id) ":") subnet_id) ":" in
    record { minute = str_append stem "m"; day = str_append stem "d"; month = str_append stem "M" }

-- The seven numbers that the script returns.
pub record Reply : Type 0 where
  pub allowed : ℕ
  pub minute_count : ℕ
  pub minute_ttl : ℤ
  pub day_count : ℕ
  pub day_ttl : ℤ
  pub month_count : ℕ
  pub month_ttl : ℤ

module _ (r : CounterStore) where
  open r use {State, get, incr, expire, ttl}

  -- `minute_count >= minute_limit or …`
  abbrev pub is_denied : Keys → Limits → State → Bool
  is_denied ks limits s =
      leb limits.minute (or_zero (get ks.minute s))
      || leb limits.day (or_zero (get ks.day s))
      || leb limits.month (or_zero (get ks.month s))

  -- `if count == 1 then EXPIRE key window`
  abbrev pub expire_new : ℕ → String → ℕ → State → State
  expire_new count key window s = if nat_beq count 1 then expire key window s else s

  -- INCR of one counter, and its count.
  abbrev pub reply_of : ℕ → ℕ → ℕ → ℕ → Keys → State → Reply
  reply_of allowed m d n ks s = record {
    allowed = allowed;
    minute_count = m;
    minute_ttl = ttl ks.minute s;
    day_count = d;
    day_ttl = ttl ks.day s;
    month_count = n;
    month_ttl = ttl ks.month s;
  }

  -- All three INCRs, then the expiry of each counter that is new.
  unfoldable pub admit : Keys → Limits → State → Reply × State
  admit ks windows s =
      let (m, s1) = incr ks.minute s in
      let (d, s2) = incr ks.day s1 in
      let (n, s3) = incr ks.month s2 in
      let s4 = expire_new m ks.minute windows.minute s3 in
      let s5 = expire_new d ks.day windows.day s4 in
      let s6 = expire_new n ks.month windows.month s5 in (reply_of 1 m d n ks s6, s6)

  unfoldable pub deny : Keys → State → Reply × State
  deny ks s = (
    reply_of 0 (or_zero (get ks.minute s)) (or_zero (get ks.day s)) (or_zero (get ks.month s)) ks s,
    s,
  )

  -- `ARGV` is the limits and the windows.
  unfoldable pub rate_limit : Keys → Limits → Limits → State → Reply × State
  rate_limit ks limits windows s = if is_denied ks limits s then deny ks s else admit ks windows s
