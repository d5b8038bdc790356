-- ===== src/Health/Tests.antt =====
-- Requests to the health endpoint: a well gateway, the cache, and a database that fails later.
use tao_gateway.Base.{ℕ, ◌≡◌, refl, String, Bool, true, false, none, some, List, [], ◌∷◌, lower}
use tao_gateway.Base.Int.{pos}
use tao_gateway.RedisClient.{RedisState, get_redis, try_get_redis}
use tao_gateway.Routing.Metagraph.{Subnets, is_stale}
use tao_gateway.Health.{HealthCache, Visit, get_metagraph_status, health_check, sanitize_sync_error}
use tao_gateway.Health.Answers.{AreHonest, health_checks-IsHonest}

abbrev size_of : ℕ → ℕ
size_of n = n

abbrev isoformat : ℕ → String
isoformat t = "2026-03-01T00:00:00+00:00"

abbrev subnets : Subnets ℕ
subnets =
    (
      22,
      record {
        netuid = 22;
        metagraph = some 256;
        last_sync_time = 900;
        last_sync_mono = pos 900;
        last_sync_error = none;
        consecutive_failures = 0;
        staleness_threshold = 300_000_000;
        sync_generation = 1;
      },
    )
    ∷ []

abbrev visit : ℕ → Bool → Visit ℕ size_of isoformat
visit now db_ok = record {
  now = now;
  db_ok = db_ok;
  attempt = record { now = now; connected = some 1; failed_at = now };
  aclose_raises = false;
  ping_ok = true;
  manager = some subnets;
  version = "1.0";
  uptime = 10;
}

abbrev visits : List (Visit ℕ size_of isoformat)
visits = visit 9_000_000 true ∷ visit 13_999_999 false ∷ visit 14_000_000 false ∷ []

abbrev redis_state : RedisState
redis_state = record { redis_client = none; last_failure_time = 0 }

health_checks-IsHonest_example : AreHonest ℕ size_of isoformat visits [] (none, redis_state)
health_checks-IsHonest_example = health_checks-IsHonest ℕ size_of isoformat visits redis_state

-- The status of each answer.
abbrev answers : List (Visit ℕ size_of isoformat) → HealthCache × RedisState → List ℕ
answers [] s = []
answers (v ∷ rest) s =
    let (answered, cache, state) = health_check ℕ size_of isoformat v s in
    answered.0 ∷ answers rest (cache, state)

-- The second request is answered from the cache; the third sees the failure.
answers_run : answers visits (none, redis_state) ≡ 200 ∷ 200 ∷ 503 ∷ []
unfolding health_check try_get_redis get_redis get_metagraph_status is_stale
answers_run = refl

categories_run :
    sanitize_sync_error (some "Connection refused by 10.0.0.1") ≡ some "connection_error"
unfolding sanitize_sync_error lower
categories_run = refl
