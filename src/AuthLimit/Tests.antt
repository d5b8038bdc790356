-- ===== src/AuthLimit/Tests.antt =====
-- Runs of the limit on the authentication endpoints, and each theorem at a concrete input.
use mathlib.Core.List.{reverse}
use tao_gateway.Base.{
  ℕ, suc, ◌+◌, ◌≤◌, ◌≡◌, refl, ◌≢◌, String, false, Option, none, some, List, [], ◌∷◌, ◌++◌, arith,
  length, string_eq, ltb,
}
use Prim.Native.Nat.{min}
use tao_gateway.Base.Int.{pos}
use tao_gateway.Base.Dict.Unique.{IsUnique}
use tao_gateway.Errors.{err}
use tao_gateway.RedisClient.{get_redis}
use tao_gateway.RateLimit.Store.{or_zero}
use tao_gateway.RateLimit.Store.Concrete.{entries}
use tao_gateway.AuthLimit.Fallback.{fallback_max_entries, check}
use tao_gateway.AuthLimit.Fallback.Window.{run, run_passes}
use tao_gateway.AuthLimit.Fallback.Size.{check-bounded}
use tao_gateway.AuthLimit.Check.{redis, answered, not_run, Env, World, check_rate_limit}
use tao_gateway.AuthLimit.Check.Counts.{check_rate_limit_redis}
use tao_gateway.AuthLimit.ClientIp.{client_ip, rate_key}
use tao_gateway.AuthLimit.ClientIp.Spoofing.{client_ip_unspoofed}
use tao_gateway.AuthLimit.Guard.{Origin, too_many, rate_limit_auth}
use tao_gateway.AuthLimit.Guard.Denial.{rate_limit_auth_denied}

run_passes_example :
    (run "auth_rate:1.2.3.4" 2 60 (100 ∷ 110 ∷ 159 ∷ []) []).0
    ≡ min (suc (length {A = ℕ} (110 ∷ 159 ∷ []))) 2
run_passes_example =
    run_passes "auth_rate:1.2.3.4" 2 60 100 (110 ∷ 159 ∷ []) [] (omega arith) (omega arith) refl
      (omega arith, (omega arith, tt))

-- The window is over: the count begins again.
runs_over : (run "a" 2 60 (100 ∷ 110 ∷ 159 ∷ 160 ∷ []) []).0 ≡ 3
unfolding run check
runs_over = refl

check-bounded_example :
    let d' = (check "a" 2 60 7 (("b", (1, 1)) ∷ [])).1 in
    IsUnique d' × (length d' ≤ suc fallback_max_entries)
check-bounded_example = check-bounded "a" 2 60 7 (("b", (1, 1)) ∷ []) (refl, tt)

abbrev env : Env
env = record {
  attempt = record { now = 9_000_000; connected = some 1; failed_at = 9_000_100 };
  call = answered;
  aclose_raises = false;
  mono = 9_000_000;
}

abbrev world : World entries
world = record {
  client = record { redis_client = none; last_failure_time = 0 };
  script = record { lua_script = none; lua_script_redis = none };
  store = ("auth_rate:1.2.3.4", (5, pos 40)) ∷ [];
  entries = [];
}

-- The script in Redis is not run.
abbrev broken : Env
broken = record env { call = not_run }

env-reached : (get_redis env.attempt world.client).0 ≢ none
unfolding get_redis
env-reached e = cc

check_rate_limit_redis_example :
    let (x, w') = check_rate_limit entries "auth_rate:1.2.3.4" 5 60 5 60_000_000 env world in
    (x.source ≡ redis)
    × (x.allowed ≡ ltb (or_zero (entries.get "auth_rate:1.2.3.4" world.store)) 5)
    × (entries.get "auth_rate:1.2.3.4" w'.store
        ≡ some (or_zero (entries.get "auth_rate:1.2.3.4" world.store) + 1))
    × (w'.entries ≡ world.entries)
check_rate_limit_redis_example =
    check_rate_limit_redis entries "auth_rate:1.2.3.4" 5 60 5 60_000_000 env world (omega arith)
      env-reached refl

broken-fails : broken.call ≢ answered
broken-fails e = cc

abbrev proxies : List String
proxies = "10.0.0.1" ∷ "10.0.0.2" ∷ []

-- The client sent an address of its own making.
client_ip_unspoofed_example :
    client_ip proxies "10.0.0.2"
      (some ((("9.9.9.9" ∷ []) ++ ("1.2.3.4" ∷ [])) ++ reverse ("10.0.0.1" ∷ [])))
    ≡ "1.2.3.4"
client_ip_unspoofed_example =
    client_ip_unspoofed proxies "10.0.0.2" "1.2.3.4" ("9.9.9.9" ∷ []) ("10.0.0.1" ∷ []) refl refl
      (refl, tt)

-- Every text is its own normal form.
abbrev as_written : String → Option String
as_written ip = some ip

world-full : 5 ≤ or_zero (entries.get (rate_key as_written "1.2.3.4") world.store)
unfolding rate_key
world-full = omega arith

rate_limit_auth_denied_example :
    let o : Origin = record {
      direct_ip = some "10.0.0.2";
      forwarded_for = some ((("9.9.9.9" ∷ []) ++ ("1.2.3.4" ∷ [])) ++ reverse ("10.0.0.1" ∷ []));
    } in
    let (res, w') = rate_limit_auth entries as_written proxies 5 o env world in
    (res ≡ err too_many)
    × (entries.get (rate_key as_written "1.2.3.4") w'.store
        ≡ some (or_zero (entries.get (rate_key as_written "1.2.3.4") world.store) + 1))
rate_limit_auth_denied_example =
    rate_limit_auth_denied entries as_written proxies 5 "10.0.0.2" "1.2.3.4" ("9.9.9.9" ∷ [])
      ("10.0.0.1" ∷ []) env world refl refl (refl, tt) env-reached refl world-full
