-- ===== src/AuthLimit/Check.antt =====
-- `check_rate_limit` of gateway/core/rate_limit.py: a fixed window in Redis, with the fallback
-- where Redis fails.
pub mod Counts
use tao_gateway.Base.{ℕ, String, Bool, true, false, Option, none, some, nat_beq, leb, if◌then◌else◌}
use tao_gateway.RedisClient.{Client, RedisState, Attempt, get_redis, reset_redis}
use tao_gateway.RateLimit.Store.{CounterStore}
use tao_gateway.AuthLimit.Fallback.{Entries, check}

-- `source` of the result: "redis" or "fallback".
pub data Source : Type 0 where
  redis fallback : Source

pub record SimpleRateLimitResult : Type 0 where
  pub allowed : Bool
  pub count : Option ℕ
  pub source : Source

-- How the call of the script ends: with the count, or by an exception, before or after Redis ran it.
pub data Call : Type 0 where
  answered reply_lost not_run : Call

-- What a call meets outside; `mono` is the clock that the fallback reads.
pub record Env : Type 0 where
  pub attempt : Attempt
  pub call : Call
  pub aclose_raises : Bool
  pub mono : ℕ

-- The globals `_lua_script` and `_lua_script_redis`, by the clients that they belong to.
pub record ScriptCache : Type 0 where
  pub lua_script : Option Client
  pub lua_script_redis : Option Client

abbrev is_registered : Option Client → Option Client → Client → Bool
is_registered (some handle) (some d) c = nat_beq d c
is_registered _ _ c = false

abbrev pub register_script : Client → ScriptCache → ScriptCache
register_script c s =
    if is_registered s.lua_script s.lua_script_redis c
    then s
    else record { lua_script = some c; lua_script_redis = some c }

module _ (r : CounterStore) where
  open r use {State, incr, expire}

  -- `_RATE_LIMIT_LUA`
  unfoldable pub rate_limit_lua : String → ℕ → State → ℕ × State
  rate_limit_lua key window s =
      let (current, s') = incr key s in
      (current, if nat_beq current 1 then expire key window s' else s')

  pub record World : Type 0 where
    pub client : RedisState
    pub script : ScriptCache
    pub store : State
    pub entries : Entries

  abbrev pub fall_back : String → ℕ → ℕ → Env → World → SimpleRateLimitResult × World
  fall_back key fallback_limit fallback_window env w =
      let (allowed, d) = check key fallback_limit fallback_window env.mono w.entries in
      (
        record { allowed = allowed; count = none; source = fallback },
        record w { client = reset_redis env.aclose_raises w.client; entries = d },
      )

  -- `check_rate_limit`; the fallback window is in microseconds.
  unfoldable pub check_rate_limit :
      String → ℕ → ℕ → ℕ → ℕ → Env → World → SimpleRateLimitResult × World
  check_rate_limit key limit window_seconds fallback_limit fallback_window env w =
      let (found, c) = get_redis env.attempt w.client in
      elim found [
        | none ↦ fall_back key fallback_limit fallback_window env (record w { client = c })
        | some redis_client ↦
            let w' = record w { client = c; script = register_script redis_client w.script } in
            let (count, s) = rate_limit_lua key window_seconds w.store in
            elim env.call [
              | answered ↦ (
                record { allowed = leb count limit; count = some count; source = redis },
                record w' { store = s },
              )
              | reply_lost ↦
                  fall_back key fallback_limit fallback_window env (record w' { store = s })
              | not_run ↦ fall_back key fallback_limit fallback_window env w'
            ]
      ]
