-- ===== src/Dashboard/Agreement.antt =====
-- The state of a subnet as gateway/api/health.py, gateway/api/admin.py and gateway/api/dashboard.py
-- show it.
use tao_gateway.Base.{
  ℕ, suc, ◌+◌, ◌≤◌, ◌≡◌, refl, ap, ◌∙◌, ◌⊎◌, inl, inr, String, Bool, true, false, Option, none,
  some, List, [], ◌∷◌, All, map, length, length-map, nat_eq, ltb, arith,
}
use tao_gateway.Base.Dict.{lookup}
use tao_gateway.Base.Dict.Unique.{IsUnique, IsUnique-finds}
use tao_gateway.Routing.Metagraph.{Subnets, is_stale}
use tao_gateway.RedisClient.{RedisState}
use tao_gateway.Base.Sorting.{All-sorted, length-sorted}
use tao_gateway.Health.{
  SubnetHealthStatus, HealthResponse, HealthCache, Visit, subnet_status, statuses, answer_with,
  get_metagraph_status, health_check,
}
use tao_gateway.Admin.Metagraph.{
  SyncStatus, healthy, degraded, never_synced, SubnetMetagraphStatus, metagraph_status,
  sync_status_of, status_le, get_metagraph_response,
}
use tao_gateway.Dashboard.{get_subnet_status, status_in}

-- The admin's status in the words of the other two.
abbrev pub in_words : SyncStatus → String
in_words healthy = "healthy"
in_words degraded = "degraded"
in_words never_synced = "unavailable"

module _ (M I : Type 0) (size_of : M → ℕ) (incentives : M → Option (List I))
    (is_positive : I → Bool) (isoformat : ℕ → String) where
  -- The dashboard shows the status that stands in an entry of the health endpoint's answer.
  abbrev pub IsShown : Subnets M → ℕ → SubnetHealthStatus → Type 0
  IsShown subnets now s = get_subnet_status M (some subnets) now s.netuid ≡ s.status

  -- And that in an entry of the operators' view.
  abbrev pub IsListed : Subnets M → ℕ → SubnetMetagraphStatus → Type 0
  IsListed subnets now s = get_subnet_status M (some subnets) now s.netuid ≡ in_words s.sync_status

  -- The cache has no answer that is less than five seconds old.
  abbrev pub IsExpired : ℕ → HealthCache → Type 0
  IsExpired now cache =
      (cache ≡ none)
      ⊎ ((r : HealthResponse) × (time : ℕ) × (cache ≡ some (r, time)) × (time + 5_000_000 ≤ now))

  shows_known :
      (stale : Bool) (m : Option M)
      → subnet_status M size_of isoformat m stale
        ≡ in_words (sync_status_of M I size_of incentives is_positive isoformat m stale)
  shows_known stale none = refl
  shows_known true (some m) = refl
  shows_known false (some m) = refl

  IsShown-found :
      (subnets : Subnets M) (now : ℕ) (l : Subnets M)
      → All (λ e. lookup e.0 subnets ≡ some e.1) l
      → All (IsShown subnets now) (statuses M size_of isoformat now l)
  unfolding get_subnet_status
  IsShown-found subnets now [] h = tt
  IsShown-found subnets now (e ∷ l) (found, h) =
      (ap (status_in M now) found, IsShown-found subnets now l h)

  IsListed-found :
      (subnets : Subnets M) (now : ℕ) (l : Subnets M)
      → All (λ e. lookup e.0 subnets ≡ some e.1) l
      → All
          (IsListed subnets now)
          (map (metagraph_status M I size_of incentives is_positive isoformat now) l)
  unfolding get_subnet_status
  IsListed-found subnets now [] h = tt
  IsListed-found subnets now (e ∷ l) (found, h) = (
    ap (status_in M now) found ∙ shows_known (is_stale M now e.1) e.1.metagraph,
    IsListed-found subnets now l h,
  )

  length-statuses :
      (now : ℕ) (l : Subnets M) → length (statuses M size_of isoformat now l) ≡ length l
  length-statuses now [] = refl
  length-statuses now (e ∷ l) = ap suc (length-statuses now l)

  answer_subnets :
      (now : ℕ) (well : Bool) (r : HealthResponse)
      → (answer_with M size_of isoformat now (well, r)).0.1 ≡ r
  answer_subnets now true r = refl
  answer_subnets now false r = refl

  -- What a health check that is not answered from the cache reports of the subnets.
  fresh_subnets :
      (v : Visit M size_of isoformat) (cache : HealthCache) (state : RedisState)
      → IsExpired v.now cache
      → (health_check M size_of isoformat v (cache, state)).0.1.subnets
        ≡ get_metagraph_status M size_of isoformat v.now v.manager
  unfolding health_check
  fresh_subnets v none state h = ap (λ (r : HealthResponse). r.subnets) (answer_subnets v.now _ _)
  fresh_subnets v (some (r, time)) state h =
      let old : ltb v.now (time + 5_000_000) ≡ false = is_old h in
      rw old (ap (λ (q : HealthResponse). q.subnets) (answer_subnets v.now _ _))
    where
      is_old : IsExpired v.now (some (r, time)) → ltb v.now (time + 5_000_000) ≡ false
      is_old (inl e) = absurd (cc e)
      is_old (inr (r', time', e, h)) = let same : time ≡ time' = cc in ground arith

  -- For an answer of the health endpoint that is not from its cache: the dashboard shows at that time
  -- the status that stands in the answer for each of its subnets, and that of each subnet in the
  -- operators' view, which calls a subnet without a metagraph never synced; and both list as many
  -- subnets as are registered. An answer from the cache may be up to five seconds older.
  pub statuses_agree :
      (v : Visit M size_of isoformat) (subnets : Subnets M) (cache : HealthCache)
      (state : RedisState)
      → v.manager ≡ some subnets
      → IsUnique subnets
      → IsExpired v.now cache
      → let reported = (health_check M size_of isoformat v (cache, state)).0.1.subnets in
        let listed =
          get_metagraph_response M I size_of incentives is_positive isoformat
            (some subnets)
            v.now in
        All (IsShown subnets v.now) reported
        × All (IsListed subnets v.now) listed
        × (length reported ≡ length subnets)
        × (length listed ≡ length subnets)
  unfolding get_metagraph_status get_metagraph_response
  statuses_agree v subnets cache state managed u expired =
      let found = IsUnique-finds subnets u in
      let e : (health_check M size_of isoformat v (cache, state)).0.1.subnets
          ≡ statuses M size_of isoformat v.now subnets =
        fresh_subnets v cache state expired
        ∙ ap (get_metagraph_status M size_of isoformat v.now) managed in
      rw e (
        IsShown-found subnets v.now subnets found,
        All-sorted (status_le M I size_of incentives is_positive isoformat) (IsListed subnets v.now)
            _ (IsListed-found subnets v.now subnets found),
        length-statuses v.now subnets,
        length-sorted _ _ ∙ length-map _ subnets,
      )
