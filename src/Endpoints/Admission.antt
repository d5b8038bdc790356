-- ===== src/Endpoints/Admission.antt =====
-- A miner is asked only for a request that is admitted.
use tao_gateway.Base.{ℕ, ◌≡◌, refl, sym, ap, ◌⊎◌, inl, inr, String, Bool, Option, List, []}
use mathlib.Core.Path.{subst}
use tao_gateway.Errors.{GatewayError, Result, ok, err, Result-cases}
use tao_gateway.RateLimit.Limits.{RateLimitResult, get_subnet_rate_limits}
use tao_gateway.RateLimit.Store.{CounterStore}
use tao_gateway.RateLimit.Check.{Env, World, enforce_rate_limit}
use tao_gateway.RateLimit.Check.Outcome.{IsWithin}
use tao_gateway.RateLimit.Script.{keys_of}
use tao_gateway.RateLimit.Check.Counters.{IsCounted}
use tao_gateway.RateLimit.Check.Enforce.{enforce_rate_limit-IsWithin}
use tao_gateway.Routing.Float.{Floats}
use tao_gateway.Routing.Scorer.{Config, States}
use tao_gateway.Routing.Selector.{AxonInfo}
use tao_gateway.Adapter.{AdapterConfig}
use tao_gateway.Registry.{AdapterRegistry, get_by_model}
use tao_gateway.Usage.{UsageEntry}
use tao_gateway.Endpoints.{
  Answer, failed_with, Handling, Network, execute_subnet_request, continue_with, with_adapter,
  subnet_endpoint,
}

module _ (uuid : String → ℕ) (B : Type 0) (valid : B → Bool) (dumps : B → Option String)
    (x : Floats) (scorer_config : Config x) (axon_uid : AxonInfo → ℕ) (c : CounterStore)
    (A : Type 0) (get_config : A → AdapterConfig) where
  abbrev pub Ended : Type 0
  Ended = (Answer B × List UsageEntry) × Option (States x) × World c

  abbrev pub limited : String → AdapterConfig → Env → World c → Result RateLimitResult × World c
  limited key_id config env w = enforce_rate_limit c key_id config.netuid config.subnet_name env w

  -- A request that is refused, by the registry or by the rate limit: nothing is recorded nor
  -- observed.
  abbrev pub IsRefused :
      AdapterRegistry A get_config
      → String
      → Handling
      → Env
      → Option (States x)
      → World c
      → Ended
      → Type 0
  IsRefused registry model h env scorer w (done, scorer', w') =
      (e : GatewayError) × (done ≡ (failed_with e, []))
      × (scorer' ≡ scorer)
      × ((get_by_model A get_config model registry ≡ err e) × (w' ≡ w)
          ⊎ ((adapter : A) × (get_by_model A get_config model registry ≡ ok adapter)
              × (limited h.api_key.key_id (get_config adapter) env w ≡ (err e, w'))))

  -- A request that reaches its adapter: its key is let through by the limit of the adapter's subnet
  -- and counted, and it ends as `execute_subnet_request` does.
  abbrev pub IsAdmitted :
      AdapterRegistry A get_config
      → String
      → Handling
      → Env
      → Network uuid valid dumps x scorer_config axon_uid
      → Option (States x)
      → World c
      → Ended
      → Type 0
  IsAdmitted registry model h env n scorer w (done, scorer', w') =
      (adapter : A) × (rate_result : RateLimitResult) × (get_by_model A get_config model registry
        ≡ ok adapter)
      × (limited h.api_key.key_id (get_config adapter) env w ≡ (ok rate_result, w'))
      × IsWithin (get_subnet_rate_limits (get_config adapter).netuid) rate_result
      × IsCounted c (keys_of h.api_key.key_id (get_config adapter).subnet_name) w.store w'.store
          rate_result
      × (execute_subnet_request uuid valid dumps x scorer_config axon_uid (get_config adapter) h
            rate_result n scorer
          ≡ (done, scorer'))

  admitted :
      (registry : AdapterRegistry A get_config) (model : String) (h : Handling) (env : Env)
      (n : Network uuid valid dumps x scorer_config axon_uid) (scorer : Option (States x))
      (w : World c) (adapter : A)
      → get_by_model A get_config model registry ≡ ok adapter
      → (p : Result RateLimitResult × World c)
      → limited h.api_key.key_id (get_config adapter) env w ≡ p
      → let r =
          continue_with uuid valid dumps x scorer_config axon_uid c A get_config
            (get_config adapter)
            h
            n
            scorer
            p in
        IsRefused registry model h env scorer w r ⊎ IsAdmitted registry model h env n scorer w r
  admitted registry model h env n scorer w adapter found (err e, w') run =
      inl (e, refl, refl, inr (adapter, found, run))
  admitted registry model h env n scorer w adapter found (ok y, w') run =
      let config = get_config adapter in
      let i =
        enforce_rate_limit-IsWithin c h.api_key.key_id config.netuid config.subnet_name env w y
          (ap (λ q. q.0) run) in
      inr (adapter, y, found, run, i.0, rw (sym (ap (λ q. q.1.store) run)) i.1, refl)

  -- A request to an endpoint either is refused with an exception of the gateway, that of the
  -- registry, which knows no adapter of the model, or that of the rate limit of the adapter's subnet,
  -- with no record of usage and no observation of a miner; or its model has an adapter, the rate
  -- limit of the adapter's subnet lets its key through and counts it within the limit of every
  -- window, and it ends as the adapter's execution does.
  pub subnet_endpoint_admits :
      (registry : AdapterRegistry A get_config) (model : String) (h : Handling) (env : Env)
      (n : Network uuid valid dumps x scorer_config axon_uid) (scorer : Option (States x))
      (w : World c)
      → let r =
          subnet_endpoint uuid valid dumps x scorer_config axon_uid c A get_config registry model h
            env n scorer w in
        IsRefused registry model h env scorer w r ⊎ IsAdmitted registry model h env n scorer w r
  unfolding subnet_endpoint
  subnet_endpoint_admits registry model h env n scorer w =
      elim (Result-cases (get_by_model A get_config model registry)) [
        | inr (e, missing) ↦ rw missing (inl (e, refl, refl, inl (refl, refl)))
        | inl (adapter, found) ↦
            let ended =
              admitted registry model h env n scorer w adapter found
                (limited h.api_key.key_id (get_config adapter) env w) refl in
            let served = λ (g : Result A).
              with_adapter uuid valid dumps x scorer_config axon_uid c A get_config h env n scorer w
                g in
            subst
              (λ g.
                IsRefused registry model h env scorer w (served g)
                ⊎ IsAdmitted registry model h env n scorer w (served g))
              (sym found) ended
      ]
