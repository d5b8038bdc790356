-- ===== src/Dashboard/Tests.antt =====
-- The dashboard of an account with one key, where one subnet was never synced.
use tao_gateway.Base.{
  ℕ, ◌≡◌, refl, String, true, false, Option, none, some, List, [], ◌∷◌, All, length, ltb, inr,
  arith,
}
use tao_gateway.Base.Int.{pos}
use tao_gateway.Routing.Metagraph.{Subnets, new_state, is_stale}
use tao_gateway.RedisClient.{RedisState}
use tao_gateway.Health.{HealthResponse, Visit, health_check}
use tao_gateway.Admin.Metagraph.{get_metagraph_response}
use tao_gateway.RateLimit.Limits.{get_subnet_rate_limits}
use tao_gateway.Errors.{ok}
use tao_gateway.Adapter.{AdapterConfig}
use tao_gateway.ApiKeys.{Table, active_count}
use tao_gateway.Accounts.{Organizations, get_org_by_id}
use tao_gateway.Dashboard.{first_active_prefix, get_subnet_status, get_overview}
use tao_gateway.Dashboard.Agreement.{IsShown, IsListed, statuses_agree}

abbrev isoformat : ℕ → String
isoformat t = "2026-03-01T00:00:00+00:00"

abbrev size_of : List ℕ → ℕ
size_of m = length m

abbrev whole : List ℕ → Option (List ℕ)
whole m = some m

abbrev subnets : Subnets (List ℕ)
subnets =
    (1, record (new_state (List ℕ) 1) { metagraph = some (5 ∷ 0 ∷ []); last_sync_mono = pos 900 })
    ∷ (19, new_state (List ℕ) 19)
    ∷ []

-- A request when the answer in the cache is ten seconds old.
abbrev visit : Visit (List ℕ) size_of isoformat
visit = record {
  now = 20_000_000;
  db_ok = true;
  attempt = record { now = 20_000_000; connected = some 1; failed_at = 20_000_000 };
  aclose_raises = false;
  ping_ok = true;
  manager = some subnets;
  version = "1.0";
  uptime = 10;
}

abbrev redis_state : RedisState
redis_state = record { redis_client = none; last_failure_time = 0 }

abbrev past : HealthResponse
past = record {
  status = "healthy";
  version = "1.0";
  uptime = 1;
  database = "healthy";
  redis = "healthy";
  subnets = [];
}

statuses_agree_example :
    let reported =
      (health_check
        (List ℕ)
        size_of
        isoformat
        visit
        (some (past, 10_000_000), redis_state)).0.1.subnets in
    let listed =
      get_metagraph_response (List ℕ) ℕ size_of whole (ltb 0) isoformat (some subnets) 20_000_000 in
    All (IsShown (List ℕ) ℕ size_of whole (ltb 0) isoformat subnets 20_000_000) reported
    × All (IsListed (List ℕ) ℕ size_of whole (ltb 0) isoformat subnets 20_000_000) listed
    × (length reported ≡ 2)
    × (length listed ≡ 2)
statuses_agree_example =
    statuses_agree (List ℕ) ℕ size_of whole (ltb 0) isoformat visit subnets
      (some (past, 10_000_000)) redis_state refl (refl, (refl, tt))
      (inr (past, 10_000_000, refl, omega arith))

abbrev orgs : Organizations
orgs = record { id = "o1"; email = "a@b.org"; password_hash = "h"; is_admin = false } ∷ []

abbrev keys : Table
keys =
    record {
      id = "k1";
      org_id = "o1";
      name = none;
      prefix = "tao_sk_live_abcdefgh";
      key_hash = "h";
      is_active = true;
      debug_mode = false;
    }
    ∷ []

abbrev config_of : ℕ → AdapterConfig
config_of n = record { netuid = n; subnet_name = "sn1"; timeout_seconds = 30 }

overview_shown :
    get_overview (List ℕ) ℕ config_of none (some subnets) 1000 "o1" orgs keys
    ≡ ok (record {
      email = "a@b.org";
      tier = "free";
      api_key_count = 1;
      first_api_key_prefix = some "tao_sk_live_abcdefgh";
      subnets =
          record {
            name = "Text Generation";
            netuid = 1;
            status = "healthy";
            rate_limits = get_subnet_rate_limits 1;
          }
          ∷ record {
            name = "Image Generation";
            netuid = 19;
            status = "unavailable";
            rate_limits = get_subnet_rate_limits 19;
          }
          ∷ record {
            name = "Code Generation";
            netuid = 62;
            status = "unavailable";
            rate_limits = get_subnet_rate_limits 62;
          }
          ∷ [];
    })
unfolding get_overview get_org_by_id active_count first_active_prefix get_subnet_status is_stale
overview_shown = refl
