-- ===== src/Health/Answers.antt =====
-- What gateway/api/health.py answers, over any requests.
use tao_gateway.Base.{
  ℕ, ◌+◌, ◌<◌, ◌≡◌, refl, sym, ◌⊎◌, inl, inr, String, Bool, true, false, not, ◌&&◌, Option, none,
  some, List, [], ◌∷◌, any, ltb, ltb→lt, if◌then◌else◌, Bool-cases, arith,
}
use tao_gateway.RedisClient.{Client, RedisState, try_get_redis}
use tao_gateway.Routing.Metagraph.{SubnetMetagraphState, Subnets, is_stale}
use tao_gateway.Health.{
  SubnetHealthStatus, HealthResponse, HealthCache, Visit, redis_ok, get_metagraph_status, statuses,
  answer_with, check_health, check_anew, health_check,
}

-- Some subnet is reported stale.
abbrev pub any_stale : List SubnetHealthStatus → Bool
any_stale subnets = any (λ (s : SubnetHealthStatus). s.is_stale) subnets

module _ (M : Type 0) (size_of : M → ℕ) (isoformat : ℕ → String) where
  -- A request, and the client of Redis when it comes in.
  abbrev pub Arrival : Type 0
  Arrival = Visit M size_of isoformat × RedisState

  -- One of the requests.
  pub data IsAmong (a : Arrival) : List Arrival → Type 0 where
    last : (seen : List Arrival) → IsAmong a (a ∷ seen)
    earlier : (b : Arrival) (seen : List Arrival) → IsAmong a seen → IsAmong a (b ∷ seen)

  abbrev stale_subnet : ℕ → Option (Subnets M) → Bool
  stale_subnet now none = false
  stale_subnet now (some subnets) =
      any (λ (e : ℕ × SubnetMetagraphState M). is_stale M now e.1) subnets

  abbrev is_found : Option Client → Bool
  is_found none = false
  is_found (some redis) = true

  -- Redis can be reached, and answers the ping.
  abbrev pub has_redis : Arrival → Bool
  has_redis (v, state) =
      is_found (try_get_redis false v.aclose_raises v.attempt state).0 && v.ping_ok

  -- The database answers, Redis does, and no metagraph is stale.
  abbrev pub is_up : Arrival → Bool
  is_up (v, state) = v.db_ok && (has_redis (v, state) && not (stale_subnet v.now v.manager))

  -- The response tells what its check found.
  pub record IsReport (a : Arrival) (r : HealthResponse) : Type 0 where
    pub status : r.status ≡ (if is_up a then "healthy" else "degraded")
    pub database : r.database ≡ (if a.0.db_ok then "healthy" else "unhealthy")
    pub redis : r.redis ≡ (if has_redis a then "healthy" else "unhealthy")
    pub version : r.version ≡ a.0.version
    pub subnets : r.subnets ≡ get_metagraph_status M size_of isoformat a.0.now a.0.manager

  -- The answer to a request, which is the last of those seen, and the cache after it.
  abbrev pub IsHonest : Arrival → List Arrival → (ℕ × HealthResponse) × HealthCache → Type 0
  IsHonest a seen ((status, r), cache) =
      ((u : Arrival) × IsAmong u (a ∷ seen)
        × (is_up u ≡ true)
        × (a.0.now < u.0.now + 5_000_000)
        × (status ≡ 200)
        × IsReport u r)
      ⊎ ((is_up a ≡ false) × (status ≡ 503) × IsReport a r × (cache ≡ none))

  -- The cache is empty, or has what the check of a request found, for which all was well.
  abbrev IsKnown : List Arrival → HealthCache → Type 0
  IsKnown seen cache =
      (cache ≡ none)
      ⊎ ((r : HealthResponse) × (u : Arrival) × (cache ≡ some (r, u.0.now))
          × IsAmong u seen
          × (is_up u ≡ true)
          × IsReport u r)

  statuses-stale :
      (now : ℕ) (subnets : Subnets M)
      → any_stale (statuses M size_of isoformat now subnets)
        ≡ any (λ (e : ℕ × SubnetMetagraphState M). is_stale M now e.1) subnets
  statuses-stale now [] = refl
  statuses-stale now (e ∷ subnets) = rw (statuses-stale now subnets) refl

  reported-stale :
      (now : ℕ) (manager : Option (Subnets M))
      → any_stale (get_metagraph_status M size_of isoformat now manager) ≡ stale_subnet now manager
  unfolding get_metagraph_status
  reported-stale now none = refl
  reported-stale now (some subnets) = statuses-stale now subnets

  redis_ok-found :
      (found : Option Client) (ping_ok : Bool)
      → redis_ok M size_of isoformat found ping_ok ≡ is_found found && ping_ok
  redis_ok-found none ping_ok = refl
  redis_ok-found (some redis) ping_ok = refl

  checked-IsReport :
      (v : Visit M size_of isoformat) (state : RedisState)
      → let (well, r) =
          check_health M size_of isoformat v
            (try_get_redis false v.aclose_raises v.attempt state).0 in
        (well ≡ is_up (v, state)) × IsReport (v, state) r
  checked-IsReport v state =
      let e = redis_ok-found (try_get_redis false v.aclose_raises v.attempt state).0 v.ping_ok in
      let s = reported-stale v.now v.manager in
      (
        rw (e, s) refl,
        record {
          status = rw (e, s) refl;
          database = refl;
          redis = rw e refl;
          version = refl;
          subnets = refl;
        },
      )

  answered-IsHonest :
      (a : Arrival) (seen : List Arrival) (well : Bool) (r : HealthResponse)
      → (well ≡ is_up a)
      → IsReport a r
      → let h = answer_with M size_of isoformat a.0.now (well, r) in
        IsHonest a seen h × IsKnown (a ∷ seen) h.1
  answered-IsHonest a seen true r e i =
      (inl (a, last seen, sym e, omega arith, refl, i), inr (r, a, refl, last seen, sym e, i))
  answered-IsHonest a seen false r e i = (inr (sym e, refl, i, refl), inl refl)

  IsAmong-earlier :
      (b : Arrival) (seen : List Arrival) (cache : HealthCache)
      → IsKnown seen cache
      → IsKnown (b ∷ seen) cache
  IsAmong-earlier b seen cache (inl e) = inl e
  IsAmong-earlier b seen cache (inr (r, u, e, m, up, i)) = inr (r, u, e, earlier b seen m, up, i)

  anew-IsHonest :
      (v : Visit M size_of isoformat) (state : RedisState) (seen : List Arrival)
      → let (answered, cache', state') =
          check_anew M size_of isoformat v (try_get_redis false v.aclose_raises v.attempt state) in
        IsHonest (v, state) seen (answered, cache') × IsKnown ((v, state) ∷ seen) cache'
  anew-IsHonest v state seen =
      let c = checked-IsReport v state in answered-IsHonest (v, state) seen _ _ c.0 c.1

  known_inj :
      (r r' : HealthResponse) (time time' : ℕ)
      → ◌≡◌ {A = HealthCache} (some (r, time)) (some (r', time'))
      → (r ≡ r') × (time ≡ time')
  known_inj r r' time time' e = (cc, cc)

  from_cache :
      (a : Arrival) (seen : List Arrival) (r : HealthResponse) (time : ℕ)
      → IsKnown seen (some (r, time))
      → a.0.now < time + 5_000_000
      → IsHonest a seen ((200, r), some (r, time))
  from_cache a seen r time (inl e) fresh = absurd (cc e)
  from_cache a seen r time (inr (r', u, e, m, up, i)) fresh =
      let (same, at) = known_inj r r' time u.0.now e in
      inl (u, earlier a seen m, up, rw⁻¹ at fresh, refl, rw same i)

  health_check-IsHonest :
      (v : Visit M size_of isoformat) (cache : HealthCache) (state : RedisState)
      (seen : List Arrival)
      → IsKnown seen cache
      → let (answered, cache', state') = health_check M size_of isoformat v (cache, state) in
        IsHonest (v, state) seen (answered, cache') × IsKnown ((v, state) ∷ seen) cache'
  unfolding health_check
  health_check-IsHonest v none state seen k = anew-IsHonest v state seen
  health_check-IsHonest v (some (r, time)) state seen k =
      elim (Bool-cases (ltb v.now (time + 5_000_000))) [
        | inr old ↦ rw old (anew-IsHonest v state seen)
        | inl fresh ↦ rw fresh (
          from_cache (v, state) seen r time k (ltb→lt _ _ fresh),
          IsAmong-earlier (v, state) seen (some (r, time)) k,
        )
      ]

  -- Each answer is honest, for requests one after the other.
  abbrev pub AreHonest :
      List (Visit M size_of isoformat) → List Arrival → HealthCache × RedisState → Type 0
  AreHonest [] seen s = Unit
  AreHonest (v ∷ visits) seen (cache, state) =
      let (answered, cache', state') = health_check M size_of isoformat v (cache, state) in
      IsHonest (v, state) seen (answered, cache')
      × AreHonest visits ((v, state) ∷ seen) (cache', state')

  known-AreHonest :
      (visits : List (Visit M size_of isoformat)) (seen : List Arrival) (cache : HealthCache)
      (state : RedisState)
      → IsKnown seen cache
      → AreHonest visits seen (cache, state)
  known-AreHonest [] seen cache state k = tt
  known-AreHonest (v ∷ visits) seen cache state k =
      let h = health_check-IsHonest v cache state seen k in
      (h.0, known-AreHonest visits ((v, state) ∷ seen) _ _ h.1)

  -- For any requests one after the other, from an empty cache, each answer either has the status 200
  -- and the report of this or an earlier request, less than five seconds before, at which the database
  -- answered, Redis could be reached and answered its ping, and no subnet's metagraph was stale; or
  -- one of these fails at this request, and the answer has the status 503 and this request's report,
  -- and leaves the cache empty. A report tells which of the database and Redis was well, and shows
  -- the subnets as they were then.
  pub health_checks-IsHonest :
      (visits : List (Visit M size_of isoformat)) (state : RedisState)
      → AreHonest visits [] (none, state)
  health_checks-IsHonest visits state = known-AreHonest visits [] none state (inl refl)
