-- ===== src/Routing/Metagraph/Sync.antt =====
-- What a run of successful and failed syncs leaves of a subnet.
use tao_gateway.Base.{
  ℕ, ◌+◌, ◌≤◌, ◌≡◌, refl, ◌≢◌, ◌⊎◌, inl, inr, String, none, some, List, [], ◌∷◌, arith, ltb, nat_eq,
  length,
}
use mathlib.Core.Option
use tao_gateway.Base.Int.{pos, negsuc}
use tao_gateway.Base.Dict.{lookup}
use tao_gateway.Routing.Metagraph.{
  SubnetMetagraphState, Fetch, fetched, failed, sync_subnet, Subnets, sync_all, is_stale,
}

module _ (M : Type 0) where
  unfoldable pub syncs : List (Fetch M) → SubnetMetagraphState M → SubnetMetagraphState M
  unfolding sync_subnet
  syncs [] state = state
  syncs (f ∷ fs) state = syncs fs (sync_subnet M f state)

  abbrev pub failures : List String → List (Fetch M)
  failures [] = []
  failures (text ∷ texts) = failed text ∷ failures texts

  syncs_failed :
      (m : M) (texts : List String) (state : SubnetMetagraphState M)
      → let s = syncs (failures texts) state in
        (s.metagraph ≡ state.metagraph)
        × (s.last_sync_mono ≡ state.last_sync_mono)
        × (s.staleness_threshold ≡ state.staleness_threshold)
        × (s.sync_generation ≡ state.sync_generation)
        × (s.consecutive_failures ≡ state.consecutive_failures + length texts)
  unfolding syncs
  syncs_failed m [] state = ground arith
  syncs_failed m (text ∷ texts) state = ground (
    arith,
    syncs_failed m texts (record state {
      consecutive_failures = state.consecutive_failures + 1;
      last_sync_error = some text;
    }),
  )

  -- A sync that succeeds, followed by any number that fail: the subnet keeps that metagraph, its
  -- generation is one more than before, the failures are counted from zero, and it is stale exactly
  -- when more than its threshold has passed since that sync.
  syncs_after_success :
      (m : M) (time mono : ℕ) (texts : List String) (state : SubnetMetagraphState M) (now : ℕ)
      → let s = syncs (fetched m time mono ∷ failures texts) state in
        (s.metagraph ≡ some m)
        × (s.sync_generation ≡ state.sync_generation + 1)
        × (s.consecutive_failures ≡ length texts)
        × (is_stale M now s ≡ ltb (mono + state.staleness_threshold) now)
  unfolding syncs is_stale
  syncs_after_success m time mono texts state now =
      ground (arith, syncs_failed m texts (sync_subnet M (fetched m time mono) state))

  -- An error is shown exactly while there are consecutive failures, and a metagraph is there exactly
  -- if it was synced once.
  pub record IsHealthy (s : SubnetMetagraphState M) : Type 0 where
    pub error :
        ((s.last_sync_error ≡ none) × (s.consecutive_failures ≡ 0))
        ⊎ ((s.last_sync_error ≢ none) × (1 ≤ s.consecutive_failures))
    pub synced :
        ((s.metagraph ≡ none) × (s.sync_generation ≡ 0) × (s.last_sync_mono ≡ negsuc 999_999))
        ⊎ ((s.metagraph ≢ none) × (1 ≤ s.sync_generation) × ((t : ℕ) × (s.last_sync_mono ≡ pos t)))

  sync_subnet-IsHealthy :
      (f : Fetch M) (s : SubnetMetagraphState M) → IsHealthy s → IsHealthy (sync_subnet M f s)
  unfolding sync_subnet
  sync_subnet-IsHealthy (fetched m time mono) s h = record {
    error = inl (refl, refl);
    synced = inr (λ e. cc, omega arith, (mono, refl));
  }
  sync_subnet-IsHealthy (failed text) s h = record {
    error = inr (λ e. cc, omega arith);
    synced = h.synced;
  }

  -- Any run of syncs from a healthy state (a newly registered one is) leaves a healthy one.
  syncs-IsHealthy :
      (fs : List (Fetch M)) (s : SubnetMetagraphState M) → IsHealthy s → IsHealthy (syncs fs s)
  unfolding syncs
  syncs-IsHealthy [] s h = h
  syncs-IsHealthy (f ∷ fs) s h =
      syncs-IsHealthy fs (sync_subnet M f s) (sync_subnet-IsHealthy f s h)

  -- A round of syncs gives every subnet the outcome of its own call, and registers none.
  pub lookup-sync_all :
      (fetch : ℕ → Fetch M) (netuid : ℕ) (subnets : Subnets M)
      → lookup netuid (sync_all M fetch subnets)
        ≡ Option.map (sync_subnet M (fetch netuid)) (lookup netuid subnets)
  unfolding sync_all
  lookup-sync_all fetch netuid [] = refl
  lookup-sync_all fetch netuid ((j, s) ∷ subnets) =
      ground (arith, lookup-sync_all fetch netuid subnets)
