-- ===== src/Routing/Selector/Cache.antt =====
-- The cached lists and the metagraphs that they were made from, while the subnets are synced between
-- the requests.
use tao_gateway.Base.{
  ℕ, ◌<◌, ◌≡◌, refl, sym, ap, ◌∙◌, ◌⊎◌, String, Bool, true, false, Option, none, some, List, [],
  ◌∷◌, arith, All, All-map, All-get_elem?, get_elem?, Bool-cases, inl, inr, string_eq, nat_eq,
  nat_beq, Option-cases, nat_beq_iff,
}
use mathlib.Core.Path.{subst}
use tao_gateway.Base.Dict.{lookup, insert, lookup-insert}
use tao_gateway.Base.Dict.Unique.{All-lookup, All-insert}
use tao_gateway.Routing.Float.{Floats}
use tao_gateway.Routing.Scorer.{States}
use tao_gateway.Routing.Metagraph.{
  SubnetMetagraphState, Subnets, Fetch, fetched, failed, sync_subnet, new_state, register_subnet,
  get_metagraph,
}
use tao_gateway.Routing.Selector.{
  Entry, Neuron, Metagraph, Cache, Selection, selected, raised, passes, no_metagraph,
  no_eligible_miners, build_eligible, weights, quality_scores, choose, eligible_of, select_miner,
}
use tao_gateway.Routing.Selector.Eligible.{IsEntryOf, build_eligible-All, build_eligible-nil}
use tao_gateway.Routing.Selector.Weights.{Choice, weights_positive}

module _ (x : Floats) (is_global : String → Option Bool) (c : Choice x) (quality_weight : x.F) where
  abbrev State : Type 0
  State = SubnetMetagraphState (Metagraph x)

  -- The manager's subnets and the selector's cache.
  pub record Routing : Type 0 where
    pub subnets : Subnets (Metagraph x)
    pub cache : Cache x

  abbrev pub select : ℕ → Option (States x) → Routing → Selection × Routing
  select netuid scorer r =
      let (answer, cache) =
        select_miner x is_global c.choices quality_weight netuid scorer r.subnets r.cache in
      (answer, record r { cache = cache })

  -- A subnet is registered once; a sync of one subnet; a request.
  pub data Step : Routing → Routing → Type 0 where
    registers :
        (netuid : ℕ) (r : Routing)
        → lookup netuid r.subnets ≡ none
        → Step r (record r { subnets = register_subnet (Metagraph x) netuid r.subnets })
    syncs :
        (netuid : ℕ) (state : State) (f : Fetch (Metagraph x)) (r : Routing)
        → lookup netuid r.subnets ≡ some state
        → Step r
            (record r { subnets = insert netuid (sync_subnet (Metagraph x) f state) r.subnets })
    selects :
        (netuid : ℕ) (scorer : Option (States x)) (r : Routing) → Step r (select netuid scorer r).1

  abbrev pub empty : Routing
  empty = record { subnets = []; cache = [] }

  pub data IsReachable : Routing → Type 0 where
    at_start : IsReachable empty
    after : {r s : Routing} → IsReachable r → Step r s → IsReachable s

  -- The list of a subnet is of an older generation, or that of the current metagraph.
  abbrev IsFresh : Subnets (Metagraph x) → ℕ × (ℕ × List (Entry x)) → Type 0
  IsFresh subnets (netuid, (g, eligible)) =
      (state : State) × (lookup netuid subnets ≡ some state)
      × ((g < state.sync_generation)
          ⊎ ((g ≡ state.sync_generation)
              × ((m : Metagraph x) × (state.metagraph ≡ some m)
                  × (eligible ≡ build_eligible x is_global m))))

  abbrev IsCoherent : Routing → Type 0
  IsCoherent r = All (IsFresh r.subnets) r.cache

  IsFresh-registers :
      (netuid : ℕ) (subnets : Subnets (Metagraph x)) (e : ℕ × (ℕ × List (Entry x)))
      → lookup netuid subnets ≡ none
      → IsFresh subnets e
      → IsFresh (register_subnet (Metagraph x) netuid subnets) e
  IsFresh-registers netuid subnets (j, (g, l)) h (state, found, fresh) = (
    state,
    ground (
      arith,
      lookup-insert netuid j (new_state (Metagraph x) netuid) subnets,
      nat_beq_iff netuid j,
    ),
    fresh,
  )

  IsFresh-syncs :
      (netuid : ℕ) (state : State) (f : Fetch (Metagraph x)) (subnets : Subnets (Metagraph x))
      (e : ℕ × (ℕ × List (Entry x)))
      → lookup netuid subnets ≡ some state
      → IsFresh subnets e
      → IsFresh (insert netuid (sync_subnet (Metagraph x) f state) subnets) e
  unfolding sync_subnet
  IsFresh-syncs netuid state (fetched m time mono) subnets (j, (g, l)) h (old, found, fresh) =
      let new = sync_subnet (Metagraph x) (fetched m time mono) state in
      let at = lookup-insert netuid j new subnets in
      elim (Bool-cases (nat_beq netuid j)) [
        | inl same ↦ (new, ground (arith, at), inl (ground (arith, nat_beq_iff netuid j)))
        | inr other ↦ (old, ground (arith, at), fresh)
      ]
  IsFresh-syncs netuid state (failed text) subnets (j, (g, l)) h (old, found, fresh) =
      let new = sync_subnet (Metagraph x) (failed text) state in
      let at = lookup-insert netuid j new subnets in
      elim (Bool-cases (nat_beq netuid j)) [
        | inl same ↦ (new, ground (arith, at), ground (arith, nat_beq_iff netuid j))
        | inr other ↦ (old, ground (arith, at), fresh)
      ]

  -- The answer for a subnet with the metagraph `m`.
  abbrev pub IsChosen : Metagraph x → ℕ → Selection → Type 0
  IsChosen m netuid answer =
      (All (λ n. passes x is_global n ≡ false) m × (answer ≡ raised (no_eligible_miners netuid)))
      ⊎ ((uid : ℕ) × (n : Neuron x) × (get_elem? m uid ≡ some n)
          × (passes x is_global n ≡ true)
          × (answer ≡ selected n.axon))

  choose-IsChosen :
      (netuid : ℕ) (scorer : Option (States x)) (m : Metagraph x) (eligible : List (Entry x))
      → eligible ≡ build_eligible x is_global m
      → IsChosen m netuid (choose x is_global c.choices quality_weight netuid scorer eligible)
  choose-IsChosen netuid scorer m [] h = inl (build_eligible-nil x is_global m (sym h), refl)
  choose-IsChosen netuid scorer m (e ∷ eligible) h =
      let scores = quality_scores x scorer quality_weight netuid in
      let ok = weights_positive x quality_weight scores (e ∷ eligible) in
      let (i, found, gives, at) =
        c.choices_gives e eligible (weights x quality_weight scores (e ∷ eligible)) ok.0 ok.1 in
      let good =
        All-get_elem? (IsEntryOf x is_global 0 m) (e ∷ eligible) i found
          (subst (λ l. All (IsEntryOf x is_global 0 m) l) (sym h)
            (build_eligible-All x is_global m))
          at in
      inr (good.index, good.neuron, good.found, good.eligible, rw gives (ap selected good.axon))

  eligible_of-IsFresh :
      (netuid : ℕ) (state : State) (m : Metagraph x) (r : Routing)
      → lookup netuid r.subnets ≡ some state
      → state.metagraph ≡ some m
      → IsCoherent r
      → let (eligible, cache) =
          eligible_of x is_global c.choices quality_weight netuid state.sync_generation m
            (lookup netuid r.cache)
            r.cache in
        (eligible ≡ build_eligible x is_global m) × All (IsFresh r.subnets) cache
  unfolding eligible_of
  eligible_of-IsFresh netuid state m r found em a =
      let built = build_eligible x is_global m in
      let fresh : IsFresh r.subnets (netuid, (state.sync_generation, built)) =
        (state, found, inr (refl, (m, em, refl))) in
      let renewed =
        All-insert (IsFresh r.subnets) netuid (state.sync_generation, built) r.cache fresh a in
      elim (Option-cases (lookup netuid r.cache)) [
        | inl missing ↦ rw missing (refl, renewed)
        | inr ((g, l), hit) ↦ elim (Bool-cases (nat_beq g state.sync_generation)) [
          | inr old ↦ rw (hit, old) (refl, renewed)
          | inl current ↦
              rw (hit, current)
                (ground (arith, All-lookup (IsFresh r.subnets) netuid (g, l) r.cache a hit), a)
        ]
      ]

  -- What `select_miner` answers: an exception where the subnet has no metagraph, else as chosen from
  -- it.
  abbrev pub IsAnswer : Subnets (Metagraph x) → ℕ → Selection → Type 0
  IsAnswer subnets netuid answer =
      ((get_metagraph (Metagraph x) netuid subnets ≡ none)
        × (answer ≡ raised (no_metagraph netuid)))
      ⊎ ((m : Metagraph x) × (get_metagraph (Metagraph x) netuid subnets ≡ some m)
          × IsChosen m netuid answer)

  get_metagraph-missing :
      (netuid : ℕ) (subnets : Subnets (Metagraph x))
      → lookup netuid subnets ≡ none
      → get_metagraph (Metagraph x) netuid subnets ≡ none
  unfolding get_metagraph
  get_metagraph-missing netuid subnets h = ground arith

  get_metagraph-found :
      (netuid : ℕ) (subnets : Subnets (Metagraph x)) (state : State)
      → lookup netuid subnets ≡ some state
      → get_metagraph (Metagraph x) netuid subnets ≡ state.metagraph
  unfolding get_metagraph
  get_metagraph-found netuid subnets state h = ground arith

  select_lem :
      (netuid : ℕ) (scorer : Option (States x)) (r : Routing)
      → IsCoherent r
      → let (answer, s) = select netuid scorer r in IsAnswer r.subnets netuid answer × IsCoherent s
  unfolding select_miner
  select_lem netuid scorer r a = elim (Option-cases (lookup netuid r.subnets)) [
    | inl missing ↦
        let g = get_metagraph-missing netuid r.subnets missing in rw missing (inl (g, refl), a)
    | inr (state, found) ↦ elim (Option-cases state.metagraph) [
      | inl missing ↦
          let g = get_metagraph-found netuid r.subnets state found ∙ missing in
          rw (found, missing) (inl (g, refl), a)
      | inr (m, em) ↦
          let e = eligible_of-IsFresh netuid state m r found em a in
          let g = get_metagraph-found netuid r.subnets state found ∙ em in
          rw (found, em) (inr (m, g, choose-IsChosen netuid scorer m _ e.0), e.1)
    ]
  ]

  Step-IsCoherent : (r s : Routing) → Step r s → IsCoherent r → IsCoherent s
  Step-IsCoherent r s (Step.registers netuid _ h) a =
      All-map (IsFresh r.subnets) _ (λ e f. IsFresh-registers netuid r.subnets e h f) r.cache a
  Step-IsCoherent r s (Step.syncs netuid state f _ h) a =
      All-map (IsFresh r.subnets) _ (λ e g. IsFresh-syncs netuid state f r.subnets e h g) r.cache a
  Step-IsCoherent r s (Step.selects netuid scorer _) a = (select_lem netuid scorer r a).1

  IsReachable-IsCoherent : (r : Routing) → IsReachable r → IsCoherent r
  IsReachable-IsCoherent r IsReachable.at_start = tt
  IsReachable-IsCoherent s (IsReachable.after {r} h step) =
      Step-IsCoherent r s step (IsReachable-IsCoherent r h)

  -- After any registrations (each subnet once), syncs and requests, from an empty manager and an
  -- empty cache: a request raises `no_metagraph` exactly without a metagraph, `no_eligible_miners`
  -- if no miner of the current metagraph passes, and else returns the axon of a miner of the current
  -- metagraph that passes every test, never that of an outdated list, and no `ValueError`.
  pub select_miner-IsAnswer :
      (netuid : ℕ) (scorer : Option (States x)) (r : Routing)
      → IsReachable r
      → IsAnswer r.subnets netuid (select netuid scorer r).0
  select_miner-IsAnswer netuid scorer r h =
      (select_lem netuid scorer r (IsReachable-IsCoherent r h)).0
