-- ===== src/Adapter/Detection.antt =====
-- gateway/subnets/sn32_detect.py: what the adapter of the detection subnet converts; the drawn id is
-- an argument. The scores are finite floats.
pub mod Judged
mod Tests
use tao_gateway.Base.{
  ℕ, String, Bool, true, false, not, ◌||◌, Option, none, some, List, [], ◌∷◌, map, length, nat_beq,
  if◌then◌else◌,
}
use tao_gateway.Routing.Float.{Floats, maximum}
use tao_gateway.Adapter.{Converted, converted, invalid}
use tao_gateway.Adapter.Search.{get_or}

module _ (x : Floats) where
  open x use {F, zero, one, decimal, leb}

  pub record DetectionRequest : Type 0 where
    pub model : Option String
    pub input : List String

  pub record TextSynapse : Type 0 where
    pub texts : List String
    pub predictions : List (List F)

  pub record DetectionResult : Type 0 where
    pub flagged : Bool
    pub ai_generated : Bool
    pub ai_generated_score : F

  pub record DetectionBody : Type 0 where
    pub id : String
    pub model : String
    pub results : List DetectionResult

  -- `to_synapse`
  abbrev pub detection_synapse : DetectionRequest → TextSynapse
  detection_synapse request = record { texts = request.input; predictions = [] }

  -- `max(0.0, min(1.0, p))`
  abbrev pub clamp : F → F
  clamp p = maximum x zero (if leb one p then one else p)

  abbrev pub judgement : F → DetectionResult
  judgement ai_prob =
      let flagged = not (leb ai_prob (decimal 5 1)) in
      record { flagged = flagged; ai_generated = flagged; ai_generated_score = ai_prob }

  -- `pred[-1]`, of a list with a first element.
  abbrev pub last_of : F → List F → F
  last_of p [] = p
  last_of p (q ∷ pred) = last_of q pred

  abbrev add_result : List F → Option (List DetectionResult) → Option (List DetectionResult)
  add_result [] rest = none
  add_result (p ∷ pred) none = none
  add_result (p ∷ pred) (some results) = some (judgement (clamp (last_of p pred)) ∷ results)

  -- The loop over the predictions; none where one of them is empty.
  unfoldable pub judge_all : List (List F) → Option (List DetectionResult)
  judge_all [] = some []
  judge_all (pred ∷ predictions) = add_result pred (judge_all predictions)

  abbrev is_empty : List (List F) → Bool
  is_empty [] = true
  is_empty (p ∷ l) = false

  abbrev pub body_of :
      String → DetectionRequest → Option (List DetectionResult) → Converted DetectionBody
  body_of id request none = invalid "unknown" "sn32-detect"
  body_of id request (some results) =
      converted (record { id = id; model = get_or "tao-sn32" request.model; results = results })

  abbrev pub is_matched : List (List F) → List String → Bool
  is_matched predictions input =
      not (is_empty predictions || not (nat_beq (length predictions) (length input)))

  -- `from_response`
  unfoldable pub detection_body : String → TextSynapse → DetectionRequest → Converted DetectionBody
  detection_body id synapse request =
      if is_matched synapse.predictions request.input
      then body_of id request (judge_all synapse.predictions)
      else invalid "unknown" "sn32-detect"

  abbrev pub judged_again : DetectionResult → DetectionResult
  judged_again r = judgement (clamp r.ai_generated_score)

  -- `sanitize_output`
  unfoldable pub sanitize_detection : DetectionBody → DetectionBody
  sanitize_detection body = record body { results = map judged_again body.results }
