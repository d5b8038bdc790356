-- ===== src/Admin/Miners.antt =====
-- `get_miners` of gateway/api/admin.py. `incentives` are those of a metagraph that can be read, in the
-- order of the uids; `round_to` is Python's `round`.
use tao_gateway.Base.{
  ℕ, ◌-◌, String, str, str_append, prefix, Bool, Option, none, some, List, [], ◌∷◌, map, get_elem?,
  ltb, string_eq, nat_eq, if◌then◌else◌,
}
use tao_gateway.Base.Dict.{Dict, insert}
use tao_gateway.Base.Sorting.{sorted}
use tao_gateway.Routing.Float.{Floats}
use tao_gateway.Routing.Scorer.{MinerQualityScore, States, get_miner_details}
use tao_gateway.Routing.Metagraph.{Subnets, get_metagraph}

module _ (x : Floats) (M : Type 0) (incentives : M → List x.F) (round_to : ℕ → x.F → x.F) where
  open x use {F, zero, div, decimal, leb as float_leb}

  pub record MinerInfo : Type 0 where
    pub miner_uid : ℕ
    pub hotkey_prefix : String
    pub netuid : ℕ
    pub subnet_name : String
    pub incentive_score : F
    pub gateway_quality_score : F
    pub total_requests : ℕ
    pub successful_requests : ℕ
    pub avg_latency_ms : F
    pub error_rate : F

  abbrev or_zero : Option F → F
  or_zero none = zero
  or_zero (some a) = a

  -- `incentive_map.get(uid, 0.0)`
  abbrev pub incentive_of : Option M → ℕ → F
  incentive_of none uid = zero
  incentive_of (some m) uid = or_zero (get_elem? (incentives m) uid)

  abbrev pub miner_error_rate : MinerQualityScore x → F
  miner_error_rate detail =
      if ltb 0 detail.total_requests
      then div (decimal (detail.total_requests - detail.successful_requests) 0)
          (decimal detail.total_requests 0)
      else zero

  abbrev pub miner_info : ℕ → Option M → MinerQualityScore x → MinerInfo
  miner_info net metagraph detail = record {
    miner_uid = detail.miner_uid;
    hotkey_prefix = prefix 8 detail.hotkey;
    netuid = net;
    subnet_name = str_append "sn" (str net);
    incentive_score = incentive_of metagraph detail.miner_uid;
    gateway_quality_score = round_to 4 detail.quality_score;
    total_requests = detail.total_requests;
    successful_requests = detail.successful_requests;
    avg_latency_ms = round_to 1 detail.avg_latency_ms;
    error_rate = round_to 4 (miner_error_rate detail);
  }

  -- The best score first, equal ones in their order.
  abbrev better : MinerInfo → MinerInfo → Bool
  better a b = float_leb b.gateway_quality_score a.gateway_quality_score

  abbrev pub with_miners :
      ℕ → List MinerInfo → Dict String (List MinerInfo) → Dict String (List MinerInfo)
  with_miners net [] result = result
  with_miners net (m ∷ miners) result =
      insert (str_append "sn" (str net)) (sorted better (m ∷ miners)) result

  -- The loop over the netuids.
  unfoldable pub collect_miners :
      States x → Subnets M → List ℕ → Dict String (List MinerInfo) → Dict String (List MinerInfo)
  collect_miners states subnets [] result = result
  collect_miners states subnets (net ∷ netuids) result =
      let miners =
        map (miner_info net (get_metagraph M net subnets)) (get_miner_details x net states) in
      collect_miners states subnets netuids (with_miners net miners result)

  abbrev keys : {V : Type 0} → Dict ℕ V → List ℕ
  keys [] = []
  keys ((k, v) ∷ d) = k ∷ keys d

  abbrev pub asked_netuids : Option ℕ → Subnets M → List ℕ
  asked_netuids none subnets = keys subnets
  asked_netuids (some netuid) subnets = netuid ∷ []

  -- The scorer, the manager, and the netuid of the query.
  unfoldable pub get_miners :
      Option (States x) → Option (Subnets M) → Option ℕ → Dict String (List MinerInfo)
  get_miners (some states) (some subnets) netuid =
      collect_miners states subnets (asked_netuids netuid subnets) []
  get_miners _ _ netuid = []
