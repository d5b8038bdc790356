-- ===== src/RedisClient/Tests.antt =====
-- The client and its circuit breaker at concrete times.
use tao_gateway.Base.{◌≡◌, refl, true, none, some, arith}
use tao_gateway.RedisClient.{
  init, Attempt, connect_locked, enter, wants_lock, get_redis, try_get_redis,
}
use tao_gateway.RedisClient.Breaker.{get_redis_after_failure, try_get_redis_reset}

abbrev refused : Attempt
refused = record { now = 9_000_000; connected = none; failed_at = 9_500_000 }

-- Within five seconds of the refusal.
abbrev sooner : Attempt
sooner = record { now = 14_000_000; connected = some 2; failed_at = 14_000_000 }

abbrev later : Attempt
later = record { now = 15_000_000; connected = some 2; failed_at = 15_000_000 }

-- A clock that reads less than five seconds finds the breaker open from the start.
starts_open : get_redis (record later { now = 4_000_000 }) init ≡ (none, init)
unfolding get_redis enter
starts_open = refl

refused-wants_lock : enter 9_000_000 init ≡ wants_lock
unfolding enter
refused-wants_lock = refl

connects_later : (get_redis later (get_redis refused init).1).0 ≡ some 2
unfolding get_redis enter connect_locked
connects_later = refl

get_redis_after_failure_example :
    let t = (get_redis refused init).1 in get_redis sooner t ≡ (none, t)
get_redis_after_failure_example =
    get_redis_after_failure refused sooner init refused-wants_lock refl (omega arith)

later-connects : (connect_locked later init).0 ≡ some 2
unfolding connect_locked
later-connects = refl

try_get_redis_reset_example :
    let (found, t) = try_get_redis true true refused init in t.redis_client ≡ found
try_get_redis_reset_example = try_get_redis_reset true refused init
