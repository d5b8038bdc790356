-- ===== src/Health.antt =====
-- gateway/api/health.py: the health endpoint with its cache, the state of the subnets, and the
-- categories of errors that gateway/api/admin.py shows. `M` is bt.Metagraph and `size_of` its `n`;
-- `isoformat` is the text of a time. Times are whole microseconds. The logging is left out.
pub mod Answers
mod Tests
use text.Mathlib.Text.{find?}
use tao_gateway.Base.{
  ℕ, ◌+◌, String, str, str_append, lower, Bool, true, false, not, ◌&&◌, Option, none, some, List,
  [], ◌∷◌, any, ltb, if◌then◌else◌,
}
use tao_gateway.Base.Dict.{Dict}
use tao_gateway.RedisClient.{Client, RedisState, Attempt, try_get_redis}
use tao_gateway.Routing.Metagraph.{SubnetMetagraphState, Subnets, is_stale}

abbrev pub sync_error_categories : Dict String String
sync_error_categories =
    ("timeout", "timeout")
    ∷ ("timed out", "timeout")
    ∷ ("connection", "connection_error")
    ∷ ("unreachable", "connection_error")
    ∷ ("refused", "connection_error")
    ∷ ("reset", "connection_error")
    ∷ ("ssl", "ssl_error")
    ∷ ("certificate", "ssl_error")
    ∷ ("dns", "dns_error")
    ∷ ("resolve", "dns_error")
    ∷ ("authentication", "auth_error")
    ∷ ("permission", "auth_error")
    ∷ []

abbrev is_found : Option ℕ → Bool
is_found none = false
is_found (some i) = true

-- The loop over the categories.
abbrev pub category_of : Dict String String → String → String
category_of [] error = "sync_error"
category_of ((keyword, category) ∷ categories) error =
    if is_found (find? error keyword) then category else category_of categories error

unfoldable pub sanitize_sync_error : Option String → Option String
sanitize_sync_error none = none
sanitize_sync_error (some raw_error) = some (category_of sync_error_categories (lower raw_error))

pub record SubnetHealthStatus : Type 0 where
  pub netuid : ℕ
  pub subnet_name : String
  pub status : String
  pub neuron_count : Option ℕ
  pub last_sync : Option String
  pub is_stale : Bool
  pub sync_error : Option String

pub record HealthResponse : Type 0 where
  pub status : String
  pub version : String
  pub uptime : ℕ
  pub database : String
  pub redis : String
  pub subnets : List SubnetHealthStatus

-- `_health_cache`: the result and the time of the last healthy check.
abbrev pub HealthCache : Type 0
HealthCache = Option (HealthResponse × ℕ)

abbrev pub health_cache_ttl : ℕ
health_cache_ttl = 5_000_000

abbrev pub health_text : Bool → String
health_text ok = if ok then "healthy" else "unhealthy"

module _ (M : Type 0) (size_of : M → ℕ) (isoformat : ℕ → String) where
  abbrev count_of : Option M → Option ℕ
  count_of none = none
  count_of (some m) = some (size_of m)

  abbrev pub subnet_status : Option M → Bool → String
  subnet_status none stale = "unavailable"
  subnet_status (some m) stale = if stale then "degraded" else "healthy"

  abbrev pub status_of : ℕ → ℕ × SubnetMetagraphState M → SubnetHealthStatus
  status_of now (netuid, state) =
      let stale = is_stale M now state in
      record {
        netuid = netuid;
        subnet_name = str_append "sn" (str netuid);
        status = subnet_status state.metagraph stale;
        neuron_count = count_of state.metagraph;
        last_sync =
            if ltb 0 state.last_sync_time then some (isoformat state.last_sync_time) else none;
        is_stale = stale;
        sync_error = none;
      }

  abbrev pub statuses : ℕ → Subnets M → List SubnetHealthStatus
  statuses now [] = []
  statuses now (entry ∷ subnets) = status_of now entry ∷ statuses now subnets

  -- `_get_metagraph_status(request) or {}`; without a manager there are no subnets.
  unfoldable pub get_metagraph_status : ℕ → Option (Subnets M) → List SubnetHealthStatus
  get_metagraph_status now none = []
  get_metagraph_status now (some subnets) = statuses now subnets

  -- What a request meets.
  pub record Visit : Type 0 where
    pub now : ℕ
    pub db_ok : Bool
    pub attempt : Attempt
    pub aclose_raises : Bool
    pub ping_ok : Bool
    pub manager : Option (Subnets M)
    pub version : String
    pub uptime : ℕ

  abbrev pub redis_ok : Option Client → Bool → Bool
  redis_ok none ping_ok = false
  redis_ok (some redis) ping_ok = ping_ok

  -- The checks: whether all is well, and the response.
  abbrev pub check_health : Visit → Option Client → Bool × HealthResponse
  check_health v redis =
      let subnets = get_metagraph_status v.now v.manager in
      let stale = any (λ (s : SubnetHealthStatus). s.is_stale) subnets in
      let well = v.db_ok && (redis_ok redis v.ping_ok && not stale) in
      (
        well,
        record {
          status = if well then "healthy" else "degraded";
          version = v.version;
          uptime = v.uptime;
          database = health_text v.db_ok;
          redis = health_text (redis_ok redis v.ping_ok);
          subnets = subnets;
        },
      )

  -- The status and the body, and the cache after the checks.
  abbrev pub answer_with : ℕ → Bool × HealthResponse → (ℕ × HealthResponse) × HealthCache
  answer_with now (well, response) =
      if well then ((200, response), some (response, now)) else ((503, response), none)

  abbrev pub check_anew :
      Visit → Option Client × RedisState → (ℕ × HealthResponse) × HealthCache × RedisState
  check_anew v (redis, state) =
      let (answered, cache) = answer_with v.now (check_health v redis) in (answered, cache, state)

  unfoldable pub health_check :
      Visit → HealthCache × RedisState → (ℕ × HealthResponse) × HealthCache × RedisState
  health_check v (none, state) = check_anew v (try_get_redis false v.aclose_raises v.attempt state)
  health_check v (some (result, time), state) =
      if ltb v.now (time + health_cache_ttl)
      then ((200, result), some (result, time), state)
      else check_anew v (try_get_redis false v.aclose_raises v.attempt state)
