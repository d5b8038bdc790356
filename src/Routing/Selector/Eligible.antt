-- ===== src/Routing/Selector/Eligible.antt =====
-- The list of eligible miners of a metagraph.
use tao_gateway.Base.{
  ℕ, suc, ◌+◌, ◌≡◌, refl, String, Bool, true, false, Option, some, [], ◌∷◌, arith, All, All-map,
  keep, ap, sym, ◌∙◌, get_elem?, length, Bool-cases, inl, inr,
}
use tao_gateway.Base.Sorting.{IsSorted, sorted-IsSorted, All-sorted, length-sorted}
use tao_gateway.Routing.Float.{Floats}
use tao_gateway.Routing.Selector.{
  Neuron, Metagraph, Entry, passes, eligible_from, before, build_eligible,
}

module _ (x : Floats) (is_global : String → Option Bool) where
  -- An entry is that of a uid of the metagraph, whose miner passes every test.
  pub record IsEntryOf (offset : ℕ) (neurons : Metagraph x) (e : Entry x) : Type 0 where
    pub index : ℕ
    pub neuron : Neuron x
    pub uid : e.uid ≡ offset + index
    pub found : get_elem? neurons index ≡ some neuron
    pub eligible : passes x is_global neuron ≡ true
    pub incentive : e.incentive ≡ neuron.incentive
    pub axon : e.axon ≡ neuron.axon

  shifted :
      (offset : ℕ) (n : Neuron x) (neurons : Metagraph x) (e : Entry x)
      → IsEntryOf (suc offset) neurons e
      → IsEntryOf offset (n ∷ neurons) e
  shifted offset n neurons e h = record {
    index = suc h.index;
    neuron = h.neuron;
    uid = omega (arith, h.uid);
    found = h.found;
    eligible = h.eligible;
    incentive = h.incentive;
    axon = h.axon;
  }

  eligible_from-All :
      (offset : ℕ) (neurons : Metagraph x)
      → All (IsEntryOf offset neurons) (eligible_from x is_global offset neurons)
  unfolding eligible_from
  eligible_from-All offset [] = tt
  eligible_from-All offset (n ∷ neurons) =
      let rest =
        All-map (IsEntryOf (suc offset) neurons) (IsEntryOf offset (n ∷ neurons))
          (shifted offset n neurons) (eligible_from x is_global (suc offset) neurons)
          (eligible_from-All (suc offset) neurons) in
      elim (Bool-cases (passes x is_global n)) [
        | inl h ↦ rw h (
          record {
            index = 0;
            neuron = n;
            uid = omega arith;
            found = refl;
            eligible = h;
            incentive = refl;
            axon = refl;
          },
          rest,
        )
        | inr h ↦ rw h rest
      ]

  length-eligible_from :
      (offset : ℕ) (neurons : Metagraph x)
      → length (eligible_from x is_global offset neurons)
        ≡ length (keep (passes x is_global) neurons)
  unfolding eligible_from
  length-eligible_from offset [] = refl
  length-eligible_from offset (n ∷ neurons) = elim (Bool-cases (passes x is_global n)) [
    | inl h ↦ rw h (ap suc (length-eligible_from (suc offset) neurons))
    | inr h ↦ rw h (length-eligible_from (suc offset) neurons)
  ]

  keep-nil :
      (neurons : Metagraph x)
      → length (keep (passes x is_global) neurons) ≡ 0
      → All (λ n. passes x is_global n ≡ false) neurons
  keep-nil [] h = tt
  keep-nil (n ∷ neurons) h = elim (Bool-cases (passes x is_global n)) [
    | inl p ↦ absurd (no_suc (rw p at h))
    | inr p ↦ (p, keep-nil neurons (rw p at h))
  ]
    where
      no_suc : {n : ℕ} → suc n ≡ 0 → ⊥
      no_suc e = omega arith

  before_total : (a b : Entry x) → before x a b ≡ false → before x b a ≡ true
  before_total a b h = x.leb_total b.incentive a.incentive h

  before_trans : (a b c : Entry x) → before x a b ≡ true → before x b c ≡ true → before x a c ≡ true
  before_trans a b c h k = x.leb_trans c.incentive b.incentive a.incentive k h

  pub build_eligible-All :
      (metagraph : Metagraph x) → All (IsEntryOf 0 metagraph) (build_eligible x is_global metagraph)
  unfolding build_eligible
  build_eligible-All metagraph =
      All-sorted (before x) (IsEntryOf 0 metagraph) (eligible_from x is_global 0 metagraph)
        (eligible_from-All 0 metagraph)

  length-build_eligible :
      (metagraph : Metagraph x)
      → length (build_eligible x is_global metagraph) ≡ length (keep (passes x is_global) metagraph)
  unfolding build_eligible
  length-build_eligible metagraph =
      length-sorted (before x) (eligible_from x is_global 0 metagraph)
      ∙ length-eligible_from 0 metagraph

  built-IsSorted :
      (metagraph : Metagraph x) → IsSorted (before x) (build_eligible x is_global metagraph)
  unfolding build_eligible
  built-IsSorted metagraph =
      sorted-IsSorted (before x) before_total before_trans (eligible_from x is_global 0 metagraph)

  -- The list is in the order of falling incentives, each of its entries is a miner of the metagraph
  -- that passes every test, and it has as many entries as miners pass.
  build_eligible-IsSorted :
      (metagraph : Metagraph x)
      → let eligible = build_eligible x is_global metagraph in
        IsSorted (before x) eligible
        × All (IsEntryOf 0 metagraph) eligible
        × (length eligible ≡ length (keep (passes x is_global) metagraph))
  build_eligible-IsSorted metagraph =
      (built-IsSorted metagraph, build_eligible-All metagraph, length-build_eligible metagraph)

  -- It is empty only if no miner passes.
  pub build_eligible-nil :
      (metagraph : Metagraph x)
      → build_eligible x is_global metagraph ≡ []
      → All (λ n. passes x is_global n ≡ false) metagraph
  build_eligible-nil metagraph h =
      keep-nil metagraph (sym (length-build_eligible metagraph) ∙ ap length h)
