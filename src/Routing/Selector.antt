-- ===== src/Routing/Selector.antt =====
-- gateway/routing/selector.py: the choice of a miner. `is_global` is the property of an address of
-- `ipaddress` (`none` where the text is no address), and `choices` is `random.choices` for one item
-- (`none` where it raises `ValueError`).
pub mod Eligible
pub mod Weights
pub mod Cache
use tao_gateway.Base.{
  ℕ, suc, ◌+◌, ◌*◌, ◌≡◌, String, Bool, true, false, not, Option, none, some, List, [], ◌∷◌, nat_beq,
  str_eq, str, str_append, if◌then◌else◌, nat_eq, string_eq, map,
}
use tao_gateway.Base.Dict.{Dict, lookup, insert}
use tao_gateway.Base.Sorting.{sorted}
use tao_gateway.Errors.{GatewayError, subnet_unavailable_error}
use tao_gateway.Routing.Float.{Floats, maximum}
use tao_gateway.Routing.Scorer.{States, get_scores}
use tao_gateway.Routing.Metagraph.{SubnetMetagraphState, Subnets, get_state}

-- The attributes of bt.AxonInfo that the selection reads.
pub record AxonInfo : Type 0 where
  pub ip : String
  pub port : ℕ
  pub hotkey : String

abbrev pub is_safe_ip : (String → Option Bool) → String → Bool
is_safe_ip is_global ip = elim (is_global ip) [ none ↦ false | some b ↦ b ]

unfoldable pub subnet_name : ℕ → String
unfolding str
subnet_name netuid = str_append "sn" (str netuid)

abbrev pub no_metagraph : ℕ → GatewayError
no_metagraph netuid = subnet_unavailable_error (subnet_name netuid) "no_metagraph"

abbrev pub no_eligible_miners : ℕ → GatewayError
no_eligible_miners netuid = subnet_unavailable_error (subnet_name netuid) "no_eligible_miners"

-- What `select_miner` gives: an axon, an exception of the gateway, or the `ValueError` of
-- `random.choices`.
pub data Selection : Type 0 where
  selected : AxonInfo → Selection
  raised : GatewayError → Selection
  value_error : Selection

module _ (x : Floats) where
  open x use {F, zero, one, add, sub, mul, decimal, leb}

  -- What a metagraph holds of the miner of one uid.
  pub record Neuron : Type 0 where
    pub incentive : F
    pub stake : F
    pub axon : AxonInfo

  -- The uids of a metagraph are the places 0, …, n - 1.
  abbrev pub Metagraph : Type 0
  Metagraph = List Neuron

  pub record Entry : Type 0 where
    pub uid : ℕ
    pub incentive : F
    pub axon : AxonInfo

  -- Whether the loop of `_build_eligible` comes to its `append`.
  abbrev pub passes : (String → Option Bool) → Neuron → Bool
  passes is_global n =
      if leb n.incentive zero
      then false
      else if leb n.stake zero
      then false
      else if str_eq n.axon.ip ""
      then false
      else if nat_beq n.axon.port 0
      then false
      else is_safe_ip is_global n.axon.ip

  unfoldable pub eligible_from : (String → Option Bool) → ℕ → Metagraph → List Entry
  eligible_from is_global uid [] = []
  eligible_from is_global uid (n ∷ neurons) =
      let rest = eligible_from is_global (suc uid) neurons in
      if passes is_global n
      then record { uid = uid; incentive = n.incentive; axon = n.axon } ∷ rest
      else rest

  -- `key=lambda x: x[1], reverse=True`: the higher incentive stands first, and equals keep their order.
  abbrev pub before : Entry → Entry → Bool
  before a b = leb b.incentive a.incentive

  unfoldable pub build_eligible : (String → Option Bool) → Metagraph → List Entry
  build_eligible is_global metagraph = sorted before (eligible_from is_global 0 metagraph)

  abbrev pub Cache : Type 0
  Cache = Dict ℕ (ℕ × List Entry)

  -- `quality_scores`: empty without a scorer, or with a weight that is not positive.
  abbrev pub quality_scores : Option (States x) → F → ℕ → Dict String F
  quality_scores none quality_weight netuid = []
  quality_scores (some scorer) quality_weight netuid =
      if leb quality_weight zero then [] else get_scores x netuid scorer

  abbrev pub blend : F → F → Option F → F
  blend quality_weight incentive none = incentive
  blend quality_weight incentive (some q_score) =
      if leb quality_weight zero
      then incentive
      else add (mul incentive (sub one quality_weight)) (mul q_score quality_weight)

  abbrev pub weight_of : F → Dict String F → Entry → F
  weight_of quality_weight scores e =
      maximum x (blend quality_weight e.incentive (lookup e.axon.hotkey scores)) (decimal 1 9)

  unfoldable pub weights : F → Dict String F → List Entry → List F
  weights quality_weight scores eligible = map (weight_of quality_weight scores) eligible

  module _ (is_global : String → Option Bool) (choices : List Entry → List F → Option Entry)
      (quality_weight : F) where
    abbrev pub picked : Option Entry → Selection
    picked none = value_error
    picked (some e) = selected e.axon

    abbrev pub choose : ℕ → Option (States x) → List Entry → Selection
    choose netuid scorer [] = raised (no_eligible_miners netuid)
    choose netuid scorer (e ∷ eligible) =
        let scores = quality_scores scorer quality_weight netuid in
        picked (choices (e ∷ eligible) (weights quality_weight scores (e ∷ eligible)))

    -- The cached list where it is of this generation, else a new one, which is then cached.
    unfoldable pub eligible_of :
        ℕ → ℕ → Metagraph → Option (ℕ × List Entry) → Cache → List Entry × Cache
    eligible_of netuid generation metagraph none cache =
        let eligible = build_eligible is_global metagraph in
        (eligible, insert netuid (generation, eligible) cache)
    eligible_of netuid generation metagraph (some (g, eligible)) cache =
        let built = build_eligible is_global metagraph in
        if nat_beq g generation
        then (eligible, cache)
        else (built, insert netuid (generation, built) cache)

    abbrev pub select_in :
        ℕ
        → Option (States x)
        → SubnetMetagraphState Metagraph
        → Option Metagraph
        → Cache
        → Selection × Cache
    select_in netuid scorer state none cache = (raised (no_metagraph netuid), cache)
    select_in netuid scorer state (some metagraph) cache =
        let (eligible, cache') =
          eligible_of netuid state.sync_generation metagraph (lookup netuid cache) cache in
        (choose netuid scorer eligible, cache')

    abbrev pub select_from :
        ℕ → Option (States x) → Option (SubnetMetagraphState Metagraph) → Cache → Selection × Cache
    select_from netuid scorer none cache = (raised (no_metagraph netuid), cache)
    select_from netuid scorer (some state) cache =
        select_in netuid scorer state state.metagraph cache

    -- `select_miner(netuid)`, with the state of the manager and of the scorer.
    unfoldable pub select_miner :
        ℕ → Option (States x) → Subnets Metagraph → Cache → Selection × Cache
    select_miner netuid scorer subnets cache =
        select_from netuid scorer (get_state Metagraph netuid subnets) cache
