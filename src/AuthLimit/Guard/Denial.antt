-- ===== src/AuthLimit/Guard/Denial.antt =====
-- Who is denied at the authentication endpoints.
use mathlib.Core.List.{reverse}
use tao_gateway.Base.{
  ℕ, ◌+◌, ◌≤◌, ◌≡◌, ◌≢◌, String, true, false, Option, none, some, List, [], ◌∷◌, ◌++◌, All, arith,
}
use tao_gateway.Errors.{err}
use tao_gateway.RedisClient.{get_redis}
use tao_gateway.RateLimit.Store.{CounterStore, or_zero}
use tao_gateway.AuthLimit.Check.{Env, World, answered}
use tao_gateway.AuthLimit.Check.Counts.{check_rate_limit_redis}
use tao_gateway.AuthLimit.ClientIp.{rate_key, is_trusted}
use tao_gateway.AuthLimit.ClientIp.Spoofing.{client_ip_unspoofed}
use tao_gateway.AuthLimit.Guard.{Origin, too_many, rate_limit_auth}

-- With a Redis that answers: once `per_minute` attempts of an address that is no trusted proxy were
-- counted in the window, a further attempt of it through trusted proxies raises the 429 and is
-- counted, whatever the client wrote into the header x-forwarded-for itself.
pub rate_limit_auth_denied :
    (r : CounterStore) (canonical : String → Option String) (trusted_proxies : List String)
    (per_minute : ℕ) (direct ip : String) (sent proxies : List String) (env : Env) (w : World r)
    → is_trusted trusted_proxies direct ≡ true
    → is_trusted trusted_proxies ip ≡ false
    → All (λ p. is_trusted trusted_proxies p ≡ true) proxies
    → (get_redis env.attempt w.client).0 ≢ none
    → env.call ≡ answered
    → per_minute ≤ or_zero (r.get (rate_key canonical ip) w.store)
    → let o : Origin = record {
      direct_ip = some direct;
      forwarded_for = some ((sent ++ (ip ∷ [])) ++ reverse proxies);
    } in
      let (res, w') = rate_limit_auth r canonical trusted_proxies per_minute o env w in
      (res ≡ err too_many)
      × (r.get (rate_key canonical ip) w'.store
          ≡ some (or_zero (r.get (rate_key canonical ip) w.store) + 1))
unfolding rate_limit_auth
rate_limit_auth_denied r canonical trusted_proxies per_minute direct ip sent proxies env w d u a f c
      h =
    rw (client_ip_unspoofed trusted_proxies direct ip sent proxies d u a) (
      ground (
        arith,
        check_rate_limit_redis r (rate_key canonical ip) per_minute 60 per_minute 60_000_000 env w
            (omega arith) f c,
      ))
