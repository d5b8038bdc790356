-- ===== src/AuthLimit/Check/Counts.antt =====
-- The counter of the authentication limit, and the switch to the fallback.
use tao_gateway.Base.{ℕ, ◌+◌, ◌<◌, ◌≡◌, ◌≢◌, ◌⊎◌, String, none, some, arith, ltb, string_eq}
use tao_gateway.Base.Dict.{beq_self}
use tao_gateway.RedisClient.{get_redis, reset_redis}
use tao_gateway.RateLimit.Store.{CounterStore, or_zero}
use tao_gateway.RateLimit.Script.Expiry.{IsExpiring}
use tao_gateway.AuthLimit.Fallback.{check}
use tao_gateway.AuthLimit.Check.{
  redis, fallback, SimpleRateLimitResult, answered, Env, World, rate_limit_lua, check_rate_limit,
}

module _ (r : CounterStore) where
  open r use {State, get, ttl}

  lua_counts :
      (key : String) (window : ℕ) (s : State)
      → 0 < window
      → ((rate_limit_lua r key window s).0 ≡ or_zero (get key s) + 1)
        × (get key (rate_limit_lua r key window s).1 ≡ some (or_zero (get key s) + 1))
  unfolding rate_limit_lua
  lua_counts key window s p = ground (
    arith,
    r.incr_returns key s,
    r.get-incr key key s,
    r.get-expire key key window (r.incr key s).1,
    beq_self key,
  )

  -- The script leaves the counter with an expiry, if it had one or was not there.
  pub rate_limit_lua-IsExpiring :
      (key : String) (window : ℕ) (s : State)
      → 0 < window
      → IsExpiring r key s
      → IsExpiring r key (rate_limit_lua r key window s).1
  unfolding rate_limit_lua
  rate_limit_lua-IsExpiring key window s p h = ground (
    arith,
    r.incr_returns key s,
    r.get-incr key key s,
    r.get-expire key key window (r.incr key s).1,
    r.ttl-incr key key s,
    r.ttl-expire key key window (r.incr key s).1,
    beq_self key,
  )

  module _ (key : String) (limit window fallback_limit fallback_window : ℕ) (env : Env)
      (w : World r) (p : 0 < window) where
    abbrev checked : SimpleRateLimitResult × World r
    checked = check_rate_limit r key limit window fallback_limit fallback_window env w

    -- With a Redis that answers, the request is allowed exactly if fewer than `limit` were counted
    -- in the window, it is counted in any case, and the fallback is not touched.
    pub check_rate_limit_redis :
        (get_redis env.attempt w.client).0 ≢ none
        → env.call ≡ answered
        → let (x, w') = checked in
          (x.source ≡ redis)
          × (x.allowed ≡ ltb (or_zero (get key w.store)) limit)
          × (get key w'.store ≡ some (or_zero (get key w.store) + 1))
          × (w'.entries ≡ w.entries)
    unfolding check_rate_limit
    check_rate_limit_redis reached call = ground (arith, lua_counts key window w.store p)

    -- Where Redis cannot be reached, or the call of the script ends by an exception, the fallback
    -- decides, for the same key, and the cached client is dropped.
    check_rate_limit_fallback :
        ((get_redis env.attempt w.client).0 ≡ none) ⊎ (env.call ≢ answered)
        → let (x, w') = checked in
          let (allowed, d) = check key fallback_limit fallback_window env.mono w.entries in
          (x ≡ record { allowed = allowed; count = none; source = fallback })
          × (w'.entries ≡ d)
          × (w'.client.redis_client ≡ none)
    unfolding check_rate_limit reset_redis
    check_rate_limit_fallback h = ground arith
