-- ===== src/RedisClient.antt =====
-- gateway/core/redis.py: the cached Redis client and its circuit breaker. A client is a number that
-- tells two connections apart; times are whole microseconds of the monotonic clock.
pub mod Breaker
mod Tests
use tao_gateway.Base.{ℕ, ◌+◌, Bool, true, false, Option, none, some, ltb, if◌then◌else◌}

abbrev pub Client : Type 0
Client = ℕ

abbrev pub circuit_breaker_cooldown : ℕ
circuit_breaker_cooldown = 5_000_000

-- The two globals `redis_client` and `_last_failure_time`.
pub record RedisState : Type 0 where
  pub redis_client : Option Client
  pub last_failure_time : ℕ

abbrev pub init : RedisState
init = record { redis_client = none; last_failure_time = 0 }

-- The clock and the outside, as one call of `get_redis` meets them: the time that it reads first,
-- the client that `from_url` and `ping` give (`none` where one of them raises), and the time that
-- the handler of that exception reads.
pub record Attempt : Type 0 where
  pub now : ℕ
  pub connected : Option Client
  pub failed_at : ℕ

-- The body of `async with _redis_lock`. A result `none` is an exception.
unfoldable pub connect_locked : Attempt → RedisState → Option Client × RedisState
connect_locked a s = elim s.redis_client [
  | some c ↦ (some c, s)
  | none ↦ elim a.connected [
    | some c ↦ (some c, record s { redis_client = some c })
    | none ↦ (none, record s { last_failure_time = a.failed_at })
  ]
]

-- What stands before the lock: a cached client, an open breaker, or on to the lock.
pub data Entry : Type 0 where
  cached : Client → Entry
  breaker_open : Entry
  wants_lock : Entry

unfoldable pub enter : ℕ → RedisState → Entry
enter now s = elim s.redis_client [
  | some c ↦ cached c
  | none ↦
      if ltb now (s.last_failure_time + circuit_breaker_cooldown) then breaker_open else wants_lock
]

abbrev pub proceed : Entry → Attempt → RedisState → Option Client × RedisState
proceed (cached c) a s = (some c, s)
proceed breaker_open a s = (none, s)
proceed wants_lock a s = connect_locked a s

-- A call that no other task interrupts; with others between, `enter` and `connect_locked` are two
-- steps.
unfoldable pub get_redis : Attempt → RedisState → Option Client × RedisState
unfolding connect_locked enter
get_redis a s = proceed (enter a.now s) a s

-- `_close_client`: whether `aclose` raises, and whether the function raises with it.
unfoldable pub close_client : Bool → Bool → RedisState → Bool × RedisState
close_client suppress_errors aclose_raises s = elim s.redis_client [
  | none ↦ (true, s)
  | some c ↦
      if aclose_raises
      then if suppress_errors then (true, record s { redis_client = none }) else (false, s)
      else (true, record s { redis_client = none })
]

unfoldable pub reset_redis : Bool → RedisState → RedisState
unfolding close_client
reset_redis aclose_raises s = (close_client true aclose_raises s).1

unfoldable pub close_redis : Bool → RedisState → Bool × RedisState
unfolding close_client
close_redis aclose_raises s = close_client false aclose_raises s

-- `try_get_redis(reset_on_failure=…)`; `none` is the value None.
unfoldable pub try_get_redis : Bool → Bool → Attempt → RedisState → Option Client × RedisState
unfolding get_redis reset_redis
try_get_redis reset_on_failure aclose_raises a s =
    let (found, s') = get_redis a s in
    elim found [
      | some c ↦ (some c, s')
      | none ↦ (none, if reset_on_failure then reset_redis aclose_raises s' else s')
    ]
