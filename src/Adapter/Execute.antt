-- ===== src/Adapter/Execute.antt =====
-- Each way through `execute` leaves one observation, of the kind that its outcome says.
use tao_gateway.Base.{
  ℕ, ◌≡◌, refl, ◌≢◌, ◌⊎◌, inl, inr, true, Option, none, some, [], ◌∷◌, str_eq, Bool-cases,
}
use tao_gateway.Errors.{GatewayError, status_code, miner_uid}
use tao_gateway.Routing.Float.{Floats}
use tao_gateway.Routing.Scorer.{Config, States, record_observation}
use tao_gateway.Routing.Selector.{AxonInfo, selected}
use tao_gateway.Adapter.{
  AdapterConfig, Converted, converted, invalid, crashed, Reply, Forward, timed_out, failed,
  responses, Meets, Outcome, returned, raises, escapes, failure, success, gateway_headers, convert,
  validate, execute,
}

module _ (x : Floats) (scorer_config : Config x) (axon_uid : AxonInfo → ℕ) (config : AdapterConfig)
    (B : Type 0) where
  -- A body with the headers and a success, an error of the miner and a failure, or another exception
  -- and no observation.
  pub data IsScored (axon : AxonInfo) (meets : Meets) (states : States x)
      : Outcome B × Option (States x) → Type 0 where
    as_success :
        (body : B)
        → IsScored axon meets states (
          returned body (gateway_headers x scorer_config axon_uid config axon meets),
          some (
              record_observation x scorer_config
                (success x scorer_config axon_uid config axon meets)
                states),
        )
    as_failure :
        (e : GatewayError)
        → ((status_code e ≡ 502) ⊎ (status_code e ≡ 504))
        → miner_uid e ≢ none
        → IsScored axon meets states (
          raises e,
          some (
              record_observation x scorer_config
                (failure x scorer_config axon_uid config axon meets)
                states),
        )
    unscored : IsScored axon meets states (escapes, some states)

  convert-IsScored :
      (axon : AxonInfo) (meets : Meets) (content : Converted B) (states : States x)
      → IsScored axon meets states
          (convert x scorer_config axon_uid config axon meets content (some states))
  unfolding status_code miner_uid
  convert-IsScored axon meets (converted body) states = as_success body
  convert-IsScored axon meets (invalid uid subnet) states =
      elim (Bool-cases (str_eq uid "unknown")) [
        | inl h ↦ rw h (as_failure _ (inl refl) (λ e. cc))
        | inr h ↦ rw h (as_failure _ (inl refl) (λ e. cc))
      ]
  convert-IsScored axon meets crashed states = unscored

  validate-IsScored :
      (axon : AxonInfo) (meets : Meets) (reply : Reply B) (states : States x)
      → IsScored axon meets states
          (validate x scorer_config axon_uid config axon meets reply (some states))
  unfolding status_code miner_uid
  validate-IsScored axon meets reply states = elim (Bool-cases reply.is_timeout) [
    | inl late ↦ rw late (as_failure _ (inr refl) (λ e. cc))
    | inr in_time ↦ elim (Bool-cases reply.is_success) [
      | inl good ↦ rw (in_time, good) (convert-IsScored axon meets reply.content states)
      | inr bad ↦ rw (in_time, bad) (as_failure _ (inl refl) (λ e. cc))
    ]
  ]

  -- Once a miner is selected and the synapse is built, `execute` with a scorer either returns the
  -- body with the headers of the miner and records one success, or raises an error of the status 502
  -- or 504 that names a miner and records one failure, or lets another exception of the adapter
  -- escape and records nothing.
  pub execute-IsScored :
      (axon : AxonInfo) (meets : Meets) (forward : Forward (Reply B)) (states : States x)
      → IsScored axon meets states
          (execute x scorer_config axon_uid config (selected axon) true meets forward (some states))
  unfolding execute status_code miner_uid
  execute-IsScored axon meets timed_out states = as_failure _ (inr refl) (λ e. cc)
  execute-IsScored axon meets failed states = as_failure _ (inl refl) (λ e. cc)
  execute-IsScored axon meets (responses []) states = as_failure _ (inl refl) (λ e. cc)
  execute-IsScored axon meets (responses (reply ∷ more)) states =
      validate-IsScored axon meets reply states
