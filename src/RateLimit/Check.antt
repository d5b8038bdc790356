-- ===== src/RateLimit/Check.antt =====
-- `load_lua_script`, `check_rate_limit` and `enforce_rate_limit` of
-- gateway/middleware/rate_limit.py.
pub mod Counters
pub mod Enforce
pub mod Outcome
use tao_gateway.Base.{
  ℕ, ◌+◌, ◌≡◌, String, Bool, true, false, Option, none, some, nat_beq, str, upper, str_append,
  if◌then◌else◌,
}
use tao_gateway.Base.Int.{ℤ, pos, pos_part, sub_ℕ, max_ℤ}
use tao_gateway.Errors.{GatewayError, rate_limit_exceeded_error, Result, ok, err}
use tao_gateway.RedisClient.{Client, RedisState, Attempt, get_redis, reset_redis}
use tao_gateway.RateLimit.Limits.{
  Limits, minute_window, day_window, month_window, get_subnet_rate_limits, RateLimitResult,
}
use tao_gateway.RateLimit.Restrictive.{Restriction, compute_most_restrictive}
use tao_gateway.RateLimit.Store.{CounterStore}
use tao_gateway.RateLimit.Script.{Keys, keys_of, Reply, rate_limit}

-- How the call of the script ends: with a reply, or by an exception, before or after Redis ran it.
pub data Call : Type 0 where
  answered reply_lost not_run : Call

-- What one check meets outside: the client's attempt to connect, how the call ends, whether closing
-- the client raises, and `int(time.time())` as `check_rate_limit` and `_compute_most_restrictive`
-- read it.
pub record Env : Type 0 where
  pub attempt : Attempt
  pub call : Call
  pub aclose_raises : Bool
  pub now : ℕ
  pub later : ℕ

-- `_lua_script` is a handle on the client that it was registered on.
pub record ScriptCache : Type 0 where
  pub lua_script : Option Client
  pub lua_script_redis : Option Client

abbrev same_client : Option Client → Client → Bool
same_client none c = false
same_client (some d) c = nat_beq d c

abbrev register : Client → Client × ScriptCache
register c = (c, record { lua_script = some c; lua_script_redis = some c })

-- The handle, and the two globals after the call.
unfoldable pub load_lua_script : Client → ScriptCache → Client × ScriptCache
load_lua_script c s = elim s.lua_script [
  | none ↦ register c
  | some handle ↦ if same_client s.lua_script_redis c then (handle, s) else register c
]

abbrev pub windows : Limits
windows = record { minute = minute_window; day = day_window; month = month_window }

-- From the reply to the result.
unfoldable pub result_of : Limits → Reply → ℕ → ℕ → RateLimitResult
result_of limits raw now later =
    let allowed = nat_beq raw.allowed 1 in
    let minute_remaining = sub_ℕ limits.minute raw.minute_count in
    let day_remaining = sub_ℕ limits.day raw.day_count in
    let month_remaining = sub_ℕ limits.month raw.month_count in
    let minute_reset = now + pos_part (max_ℤ raw.minute_ttl (pos 0)) in
    let day_reset = now + pos_part (max_ℤ raw.day_ttl (pos 0)) in
    let month_reset = now + pos_part (max_ℤ raw.month_ttl (pos 0)) in
    let most =
      compute_most_restrictive limits minute_remaining minute_reset day_remaining day_reset
        month_remaining month_reset allowed later in
    record {
      allowed = allowed;
      minute_count = raw.minute_count;
      minute_remaining = minute_remaining;
      minute_reset = minute_reset;
      day_count = raw.day_count;
      day_remaining = day_remaining;
      day_reset = day_reset;
      month_count = raw.month_count;
      month_remaining = month_remaining;
      month_reset = month_reset;
      limit = most.limit;
      remaining = most.remaining;
      reset = most.reset;
      retry_after = most.retry_after;
    }

abbrev pub unavailable : GatewayError
unavailable =
    rate_limit_exceeded_error "Rate limiting temporarily unavailable. Please retry." none 5

-- The message of a denied request.
unfoldable pub denial : String → ℕ → GatewayError
unfolding upper str
denial subnet_name retry_after =
    rate_limit_exceeded_error
      (str_append
        (str_append
          (str_append (str_append "Rate limit exceeded for " (upper subnet_name)) ". Retry after ")
          (str retry_after))
        " seconds.")
      (some subnet_name) retry_after

module _ (r : CounterStore) where
  open r use {State}

  pub record World : Type 0 where
    pub client : RedisState
    pub script : ScriptCache
    pub store : State

  -- The `except` branch.
  abbrev pub fail_closed : Env → World → Result RateLimitResult × World
  fail_closed env w =
      (err unavailable, record w { client = reset_redis env.aclose_raises w.client })

  -- The call of the script with the keys of the request.
  abbrev pub run_script : Keys → Limits → Env → World → Result RateLimitResult × World
  run_script ks limits env w =
      let (raw, s) = rate_limit r ks limits windows w.store in
      elim env.call [
        | answered ↦ (ok (result_of limits raw env.now env.later), record w { store = s })
        | reply_lost ↦ fail_closed env (record w { store = s })
        | not_run ↦ fail_closed env w
      ]

  unfoldable pub check_rate_limit :
      String → String → Limits → Env → World → Result RateLimitResult × World
  check_rate_limit key_id subnet_id limits env w =
      let (found, c) = get_redis env.attempt w.client in
      elim found [
        | none ↦ fail_closed env (record w { client = c })
        | some redis ↦
            run_script (keys_of key_id subnet_id) limits env
              (record w { client = c; script = (load_lua_script redis w.script).1 })
      ]

  abbrev pub enforce : String → Result RateLimitResult → Result RateLimitResult
  enforce subnet_name (err e) = err e
  enforce subnet_name (ok result) =
      if result.allowed then ok result else err (denial subnet_name result.retry_after)

  -- `enforce_rate_limit(key_id, netuid, subnet_name)`
  unfoldable pub enforce_rate_limit :
      String → ℕ → String → Env → World → Result RateLimitResult × World
  enforce_rate_limit key_id netuid subnet_name env w =
      let (result, w') =
        check_rate_limit key_id subnet_name (get_subnet_rate_limits netuid) env w in
      (enforce subnet_name result, w')
