-- ===== src/Adapter/Detection/Tests.antt =====
-- Two texts, of which the miner finds the second to be generated, with a score above the range.
use tao_gateway.Base.{ℕ, ◌≡◌, refl, ◌⊎◌, Bool, true, false, none, List, [], ◌∷◌, length, map, All}
use tao_gateway.Adapter.{converted, invalid}
use tao_gateway.Routing.Float.Fixed.{fixed}
use tao_gateway.Adapter.Detection.{
  DetectionRequest, TextSynapse, DetectionBody, judge_all, detection_body, sanitize_detection,
}
use tao_gateway.Adapter.Detection.Judged.{IsJudged, is_complete, detection_body_lem}

abbrev request : DetectionRequest fixed
request = record { model = none; input = "a" ∷ "b" ∷ [] }

abbrev predictions : List (List ℕ)
predictions = (400_000_000 ∷ 100_000_000 ∷ []) ∷ (1_700_000_000 ∷ []) ∷ []

abbrev synapse : TextSynapse fixed
synapse = record { texts = request.input; predictions = predictions }

abbrev ends_well : DetectionBody fixed → List Bool
ends_well body = map (λ r. r.flagged) (sanitize_detection fixed body).results

abbrev found : DetectionBody fixed
found = record {
  id = "mod-1";
  model = "tao-sn32";
  results =
      record { flagged = false; ai_generated = false; ai_generated_score = 100_000_000 }
      ∷ record { flagged = true; ai_generated = true; ai_generated_score = 1_000_000_000 }
      ∷ [];
}

found_in_order : detection_body fixed "mod-1" synapse request ≡ converted found
unfolding detection_body judge_all
found_in_order = refl

flags : ends_well found ≡ false ∷ true ∷ []
unfolding sanitize_detection
flags = refl

detection_body_lem_example :
    ((body : DetectionBody fixed) × (detection_body fixed "mod-1" synapse request ≡ converted body)
      × (is_complete fixed predictions request.input ≡ true)
      × (length (sanitize_detection fixed body).results ≡ length request.input)
      × All (IsJudged fixed) (sanitize_detection fixed body).results)
    ⊎ ((detection_body fixed "mod-1" synapse request ≡ invalid "unknown" "sn32-detect")
        × (is_complete fixed predictions request.input ≡ false))
detection_body_lem_example = detection_body_lem fixed "mod-1" request predictions
