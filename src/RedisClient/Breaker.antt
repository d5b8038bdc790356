-- ===== src/RedisClient/Breaker.antt =====
-- The circuit breaker, the lock, and what each call leaves in the cache.
use tao_gateway.Base.{◌+◌, ◌<◌, ◌≡◌, ◌⊎◌, Bool, true, none, some, arith}
use tao_gateway.RedisClient.{
  Client, circuit_breaker_cooldown, RedisState, Attempt, connect_locked, wants_lock, enter,
  get_redis, try_get_redis,
}

-- A client is returned exactly if it is then the cached one; else the state has no client, and the
-- failure was recorded or the breaker was open.
pub get_redis_cached :
    (a : Attempt) (s : RedisState)
    → let (found, t) = get_redis a s in
      (t.redis_client ≡ found)
      × (((found ≡ none) × (t.last_failure_time ≡ a.failed_at))
          ⊎ (t.last_failure_time ≡ s.last_failure_time))
unfolding get_redis
get_redis_cached a s = ground arith

-- After an attempt to connect that failed, every call within the cooldown of the recorded time
-- raises and changes nothing, whatever a connection would have given.
pub get_redis_after_failure :
    (a b : Attempt) (s : RedisState)
    → enter a.now s ≡ wants_lock
    → a.connected ≡ none
    → b.now < a.failed_at + circuit_breaker_cooldown
    → let t = (get_redis a s).1 in get_redis b t ≡ (none, t)
unfolding get_redis
get_redis_after_failure a b s w f h = ground arith

-- Of two tasks that both reach the lock, the one that comes second gets the client of the first,
-- and makes no connection of its own.
pub connect_locked_once :
    (a b : Attempt) (s : RedisState) (c : Client)
    → (connect_locked a s).0 ≡ some c
    → connect_locked b (connect_locked a s).1 ≡ (some c, (connect_locked a s).1)
unfolding connect_locked
connect_locked_once a b s c h = ground arith

-- `try_get_redis` with `reset_on_failure` leaves the client that it returns in the cache, and none
-- where it returns None; a later call that is past the cooldown then tries to connect.
pub try_get_redis_reset :
    (raises : Bool) (a : Attempt) (s : RedisState)
    → let (found, t) = try_get_redis true raises a s in t.redis_client ≡ found
unfolding try_get_redis
try_get_redis_reset raises a s = ground arith
