-- ===== src/AuthLimit/Guard.antt =====
-- `_rate_limit_auth` of gateway/api/auth.py: the dependency of every authentication endpoint.
pub mod Denial
use tao_gateway.Base.{ℕ, String, Bool, true, false, Option, none, some, List, if◌then◌else◌}
use tao_gateway.Errors.{Result, ok, err, GatewayError, rate_limit_exceeded_error}
use tao_gateway.RateLimit.Store.{CounterStore}
use tao_gateway.AuthLimit.Check.{Env, World, check_rate_limit}
use tao_gateway.AuthLimit.ClientIp.{client_ip, rate_key}

abbrev pub too_many : GatewayError
too_many = rate_limit_exceeded_error "Too many authentication attempts. Try again later." none 0

-- What the request says of its origin: the peer's address, and the header x-forwarded-for.
pub record Origin : Type 0 where
  pub direct_ip : Option String
  pub forwarded_for : Option (List String)

module _ (r : CounterStore) (canonical : String → Option String) (trusted_proxies : List String)
    (per_minute : ℕ) where
  abbrev pub guarded : String → Env → World r → Result {0} Unit × World r
  guarded ip env w =
      let (x, w') =
        check_rate_limit r (rate_key canonical ip) per_minute 60 per_minute 60_000_000 env w in
      (if x.allowed then ok tt else err too_many, w')

  unfoldable pub rate_limit_auth : Origin → Env → World r → Result {0} Unit × World r
  rate_limit_auth o env w = elim o.direct_ip [
    | none ↦ (ok tt, w)
    | some direct ↦ guarded (client_ip trusted_proxies direct o.forwarded_for) env w
  ]
