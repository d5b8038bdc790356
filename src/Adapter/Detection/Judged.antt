-- ===== src/Adapter/Detection/Judged.antt =====
-- The answer of gateway/subnets/sn32_detect.py, against the predictions of the miner.
use tao_gateway.Base.{
  suc, ◌≡◌, refl, ap, ◌∙◌, ◌⊎◌, inl, inr, String, Bool, true, false, not, ◌&&◌, none, some, List,
  [], ◌∷◌, map, length, length-map, All, any, nat_beq_iff, arith, if◌then◌else◌, Bool-cases,
}
use tao_gateway.Routing.Float.{Floats, IsUnit, leb_refl}
use tao_gateway.Adapter.{converted, invalid}
use tao_gateway.Adapter.Search.{get_or}
use tao_gateway.Adapter.Detection.{
  DetectionRequest, TextSynapse, DetectionResult, DetectionBody, clamp, judgement, last_of,
  judge_all, is_matched, detection_body, judged_again, sanitize_detection,
}

module _ (x : Floats) where
  open x use {F, zero, one, decimal, leb}

  abbrev least : F → F
  least p = if leb one p then one else p

  least-one : (p : F) → leb (least p) one ≡ true
  least-one p = elim (Bool-cases (leb one p)) [
    | inl h ↦ rw h (leb_refl x one)
    | inr h ↦ rw h (x.leb_total one p h)
  ]

  clamp-IsUnit : (p : F) → IsUnit x (clamp x p)
  clamp-IsUnit p = elim (Bool-cases (leb (least p) zero)) [
    | inl low ↦ rw low (record { nonneg = leb_refl x zero; le_one = x.zero_le_one })
    | inr high ↦ rw high (record { nonneg = x.leb_total (least p) zero high; le_one = least-one p })
  ]

  -- A score in the range, and the flags that it asks for.
  abbrev pub IsJudged : DetectionResult x → Type 0
  IsJudged r =
      IsUnit x r.ai_generated_score
      × (r.flagged ≡ not (leb r.ai_generated_score (decimal 5 1)))
      × (r.ai_generated ≡ r.flagged)

  judged_again-IsJudged : (l : List (DetectionResult x)) → All IsJudged (map (judged_again x) l)
  judged_again-IsJudged [] = tt
  judged_again-IsJudged (r ∷ l) =
      ((clamp-IsUnit r.ai_generated_score, refl, refl), judged_again-IsJudged l)

  abbrev pub no_scores : List F → Bool
  no_scores [] = true
  no_scores (p ∷ pred) = false

  -- There are predictions, one to a text, and none of them is empty.
  abbrev pub is_complete : List (List F) → List String → Bool
  is_complete predictions input = is_matched x predictions input && not (any no_scores predictions)

  judge_all-cases :
      (predictions : List (List F))
      → ((results : List (DetectionResult x)) × (judge_all x predictions ≡ some results)
          × (length results ≡ length predictions)
          × (any no_scores predictions ≡ false))
        ⊎ ((judge_all x predictions ≡ none) × (any no_scores predictions ≡ true))
  unfolding judge_all
  judge_all-cases [] = inl ([], refl, refl, refl)
  judge_all-cases ([] ∷ predictions) = inr (refl, refl)
  judge_all-cases ((p ∷ pred) ∷ predictions) = elim (judge_all-cases predictions) [
    | inl (results, h, n, e) ↦
        inl (judgement x (clamp x (last_of x p pred)) ∷ results, rw h refl, ap suc n, e)
    | inr (h, e) ↦ inr (rw h refl, e)
  ]

  -- Where the miner predicts something for each text, the answer has one result to a text: its score
  -- lies between 0.0 and 1.0, and both flags tell whether it is above 0.5. Else the answer of the
  -- miner is invalid.
  pub detection_body_lem :
      (id : String) (request : DetectionRequest x) (predictions : List (List F))
      → let synapse : TextSynapse x = record { texts = request.input; predictions = predictions } in
        ((body : DetectionBody x) × (detection_body x id synapse request ≡ converted body)
          × (is_complete predictions request.input ≡ true)
          × (length (sanitize_detection x body).results ≡ length request.input)
          × All IsJudged (sanitize_detection x body).results)
        ⊎ ((detection_body x id synapse request ≡ invalid "unknown" "sn32-detect")
            × (is_complete predictions request.input ≡ false))
  unfolding detection_body sanitize_detection
  detection_body_lem id request predictions =
      elim (Bool-cases (is_matched x predictions request.input)) [
        | inr apart ↦ inr (rw apart refl, rw apart refl)
        | inl matched ↦ elim (judge_all-cases predictions) [
          | inr (h, e) ↦ inr (rw (matched, h) refl, rw (matched, e) refl)
          | inl (results, h, n, e) ↦ inl (
            record { id = id; model = get_or "tao-sn32" request.model; results = results },
            rw (matched, h) refl,
            rw (matched, e) refl,
            length-map (judged_again x) results ∙ n ∙ same_length predictions request.input matched,
            judged_again-IsJudged results,
          )
        ]
      ]
    where
      same_length :
          (predictions : List (List F)) (input : List String)
          → is_matched x predictions input ≡ true
          → length predictions ≡ length input
      same_length [] input h = ground arith
      same_length (p ∷ predictions) input h =
          ground (arith, nat_beq_iff (length (p ∷ predictions)) (length input))
