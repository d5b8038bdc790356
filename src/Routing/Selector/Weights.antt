-- ===== src/Routing/Selector/Weights.antt =====
-- `random.choices` is called as its documentation asks.
use tao_gateway.Base.{
  ℕ, ◌≡◌, sym, ◌∙◌, String, true, false, Option, some, List, [], ◌∷◌, All, get_elem?, length,
  Bool-cases, inl, inr, length-map, string_eq,
}
use tao_gateway.Base.Dict.{Dict, lookup}
use tao_gateway.Routing.Float.{Floats, maximum}
use tao_gateway.Routing.Selector.{Entry, weights, weight_of, blend}

module _ (x : Floats) where
  open x use {F, zero, decimal, leb}

  maximum_positive : (a b : F) → leb b zero ≡ false → leb (maximum x a b) zero ≡ false
  maximum_positive a b h = elim (Bool-cases (leb b a)) [
    | inr lower ↦ rw lower h
    | inl higher ↦ rw higher (elim (Bool-cases (leb a zero)) [
      | inr positive ↦ positive
      | inl low ↦ absurd (true_ne (sym (x.leb_trans b a zero higher low) ∙ h))
    ])
  ]
    where
      true_ne : true ≡ false → ⊥
      true_ne e = cc

  positive :
      (quality_weight : F) (scores : Dict String F) (l : List (Entry x))
      → All (λ w. leb w zero ≡ false) (weights x quality_weight scores l)
  unfolding weights
  positive quality_weight scores [] = tt
  positive quality_weight scores (e ∷ l) = (
    maximum_positive (blend x quality_weight e.incentive (lookup e.axon.hotkey scores))
        (decimal 1 9) x.tiny_positive,
    positive quality_weight scores l,
  )

  -- There is one weight to an entry, and each is positive.
  pub weights_positive :
      (quality_weight : F) (scores : Dict String F) (eligible : List (Entry x))
      → (length (weights x quality_weight scores eligible) ≡ length eligible)
        × All (λ w. leb w zero ≡ false) (weights x quality_weight scores eligible)
  unfolding weights
  weights_positive quality_weight scores eligible = (
    length-map (weight_of x quality_weight scores) eligible,
    positive quality_weight scores eligible,
  )

  -- What the documentation of `random.choices` says: with one weight to an item, none negative and
  -- a positive sum (here: every weight is positive), it gives an item of the population.
  pub record Choice : Type 0 where
    pub choices : List (Entry x) → List F → Option (Entry x)
    pub choices_gives :
        (e : Entry x) (l : List (Entry x)) (ws : List F)
        → length ws ≡ length (e ∷ l)
        → All (λ w. leb w zero ≡ false) ws
        → (i : ℕ) × (c : Entry x) × (choices (e ∷ l) ws ≡ some c) × (get_elem? (e ∷ l) i ≡ some c)
