-- ===== src/Endpoints/Accounting.antt =====
-- What a request through an adapter leaves: its answer, its record of usage, and its observation.
use tao_gateway.Base.{
  ℕ, ◌≡◌, refl, ◌⊎◌, inl, inr, String, Bool, true, false, Option, none, some, List, [], ◌∷◌,
  Bool-cases, string_eq,
}
use tao_gateway.Base.Text.Decimal.{int_of-str}
use tao_gateway.Base.Dict.{Dict}
use tao_gateway.Errors.{GatewayError, status_code}
use tao_gateway.RateLimit.Limits.{RateLimitResult}
use tao_gateway.Routing.Float.{Floats}
use tao_gateway.Routing.Scorer.{Config, States, record_observation}
use tao_gateway.Routing.Selector.{AxonInfo, selected}
use tao_gateway.Adapter.{
  AdapterConfig, Outcome, Meets, Reply, Forward, success, failure, elapsed_ms, uid_prefix,
}
use tao_gateway.Adapter.Execute.{IsScored, as_success, as_failure, unscored, execute-IsScored}
use tao_gateway.Usage.{UsageEntry}
use tao_gateway.Endpoints.{
  Answer, responded, failed_with, broken, Handling, Report, usage_entry, answer,
  execute_subnet_request,
}

module _ (uuid : String → ℕ) where
  -- A record for the key of a request, its organisation, its subnet and its endpoint, with a status,
  -- that has no body unless the key is in debug mode.
  pub record IsCharged (config : AdapterConfig) (h : Handling) (status : ℕ) (u : UsageEntry)
      : Type 0 where
    pub of_key : (id now : ℕ) → (u.row id now).api_key_id ≡ uuid h.api_key.key_id
    pub of_org : (id now : ℕ) → (u.row id now).org_id ≡ uuid h.api_key.org_id
    pub of_subnet : (id now : ℕ) → (u.row id now).netuid ≡ config.netuid
    pub of_endpoint : (id now : ℕ) → (u.row id now).endpoint ≡ h.endpoint
    pub of_status : (id now : ℕ) → (u.row id now).status_code ≡ status
    pub of_time : (id now : ℕ) → (u.row id now).created_at ≡ now
    pub bare : (h.api_key.debug_mode ≡ true) ⊎ ((u.request_body ≡ none) × (u.response_body ≡ none))

  pub usage_entry-IsCharged :
      (config : AdapterConfig) (h : Handling) (report : Report)
      → IsCharged config h report.status (usage_entry uuid config h report)
  usage_entry-IsCharged config h report = record {
    of_key = λ id now. refl;
    of_org = λ id now. refl;
    of_subnet = λ id now. refl;
    of_endpoint = λ id now. refl;
    of_status = λ id now. refl;
    of_time = λ id now. refl;
    bare = elim (Bool-cases h.api_key.debug_mode) [
      | inl e ↦ inl e
      | inr e ↦ inr (rw e (refl, refl))
    ];
  }

  -- The record of an answer names the miner and the latency.
  pub record IsMeasured (axon : AxonInfo) (latency : ℕ) (u : UsageEntry) : Type 0 where
    pub of_miner : (id now : ℕ) → (u.row id now).miner_uid ≡ some (uid_prefix axon)
    pub of_latency : (id now : ℕ) → (u.row id now).latency_ms ≡ latency

module _ (x : Floats) (scorer_config : Config x) (axon_uid : AxonInfo → ℕ) (config : AdapterConfig)
    (uuid : String → ℕ) (B : Type 0) (valid : B → Bool) (dumps : B → Option String)
    (h : Handling) where
  abbrev success_of : AxonInfo → Meets → States x → Option (States x)
  success_of axon meets states = some (
      record_observation x scorer_config (success x scorer_config axon_uid config axon meets)
        states)

  abbrev failure_of : AxonInfo → Meets → States x → Option (States x)
  failure_of axon meets states = some (
      record_observation x scorer_config (failure x scorer_config axon_uid config axon meets)
        states)

  pub data IsAccounted (axon : AxonInfo) (meets : Meets) (states : States x)
      : (Answer B × List UsageEntry) × Option (States x) → Type 0 where
    as_answered :
        (body : B) (headers : Dict String String) (u : UsageEntry)
        → valid body ≡ true
        → IsCharged uuid config h 200 u
        → IsMeasured uuid axon (elapsed_ms x scorer_config axon_uid config meets) u
        → IsAccounted axon meets states
            ((responded body headers, u ∷ []), success_of axon meets states)
    as_failed :
        (e : GatewayError) (u : UsageEntry)
        → ((status_code e ≡ 502) ⊎ (status_code e ≡ 504))
        → IsCharged uuid config h (status_code e) u
        → IsAccounted axon meets states ((failed_with e, u ∷ []), failure_of axon meets states)
    as_crashed :
        (u : UsageEntry)
        → IsCharged uuid config h 500 u
        → IsAccounted axon meets states ((broken, u ∷ []), some states)
    as_rejected :
        (body : B) (e : GatewayError)
        → valid body ≡ false
        → status_code e ≡ 502
        → IsAccounted axon meets states ((failed_with e, []), success_of axon meets states)

  accounted :
      (axon : AxonInfo) (meets : Meets) (states : States x) (rate_result : RateLimitResult)
      → (r : Outcome B × Option (States x))
      → IsScored x scorer_config axon_uid config B axon meets states r
      → IsAccounted axon meets states (answer uuid valid dumps config h rate_result r.0, r.1)
  unfolding answer status_code
  accounted axon meets states rate_result r (as_success body) = elim (Bool-cases (valid body)) [
    | inl good ↦ rw good (
        as_answered body _ _ good (usage_entry-IsCharged uuid config h _)
          (record { of_miner = λ id now. refl; of_latency = λ id now. int_of-str _ }))
    | inr bad ↦ rw bad (as_rejected body _ bad refl)
  ]
  accounted axon meets states rate_result r (as_failure e s m) =
      as_failed e _ s (usage_entry-IsCharged uuid config h _)
  accounted axon meets states rate_result r unscored =
      as_crashed _ (usage_entry-IsCharged uuid config h _)

  -- Once a miner is selected and the synapse is built, a request ends in one of four ways. It is answered with a body that the schema validates, one
  -- record of the status 200 with the miner and its latency, and one success of the miner. Or it
  -- fails with an error of the status 502 or 504, one record of that status, and one failure. Or an
  -- exception of the adapter escapes, with one record of the status 500 and no observation. Or the
  -- schema refuses the body: then it fails with the status 502, there is no record, and the miner has
  -- a success all the same. Each record has the key, the organisation, the netuid and the endpoint of
  -- the request, and no body unless the key is in debug mode.
  pub execute_subnet_request-IsAccounted :
      (axon : AxonInfo) (meets : Meets) (forward : Forward (Reply B)) (states : States x)
      (rate_result : RateLimitResult)
      → IsAccounted axon meets states (
          execute_subnet_request uuid valid dumps x scorer_config axon_uid config h rate_result
            (record {
              select_miner = λ netuid. selected axon;
              built = true;
              meets = meets;
              forward = forward;
            })
            (some states))
  unfolding execute_subnet_request
  execute_subnet_request-IsAccounted axon meets forward states rate_result =
      accounted axon meets states rate_result _
        (execute-IsScored x scorer_config axon_uid config B axon meets forward states)
