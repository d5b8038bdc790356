-- ===== src/Registry/Models.antt =====
-- gateway/api/models.py, with `get_capability` and `get_parameters` of the adapters. `M` is
-- bt.Metagraph and `size_of` its `n`; the time of the start is an argument. The constant fields of
-- the answer and the logging are left out.
pub mod Served
use tao_gateway.Base.{
  ℕ, String, str, str_append, Bool, true, false, Option, none, some, List, [], ◌∷◌, map, ltb,
}
use tao_gateway.Base.Dict.{Dict}
use tao_gateway.Routing.Metagraph.{Subnets, get_metagraph}
use tao_gateway.Registry.{
  AdapterInfo, list_all, AdapterClass, sn1_text, sn19_image, sn22_search, sn32_detection, sn62_code,
  Settings, class_config, Registered,
}

abbrev pub capability_of : AdapterClass → String
capability_of sn1_text = "Text Generation"
capability_of sn19_image = "Image Generation"
capability_of sn22_search = "Web Search"
capability_of sn32_detection = "AI Content Detection"
capability_of sn62_code = "Code Generation"

abbrev pub parameters_of : AdapterClass → Dict String String
parameters_of sn1_text =
    ("model", "string (required)")
    ∷ ("messages", "array (required)")
    ∷ ("max_tokens", "integer (optional)")
    ∷ ("temperature", "number (optional, 0-2)")
    ∷ ("stream", "boolean (optional)")
    ∷ []
parameters_of sn19_image =
    ("prompt", "string (required, max 2000 chars)")
    ∷ ("model", "string (required)")
    ∷ ("resolution", "string (optional, e.g. '1024x1024')")
    ∷ ("style", "string (optional)")
    ∷ []
parameters_of sn22_search =
    ("query", "Search query (1-1000 chars)")
    ∷ ("num_results", "Results to return (1-50, default 10)")
    ∷ ("offset", "Pagination offset (default 0)")
    ∷ []
parameters_of sn32_detection =
    ("input", "Array of text strings (1-20, max 10K chars each)") ∷ ("model", "tao-sn32") ∷ []
parameters_of sn62_code =
    ("prompt", "string (required, max 16000 chars)")
    ∷ ("model", "string (required)")
    ∷ ("language", "string (required, max 32 chars)")
    ∷ ("context", "string (optional, max 32000 chars)")
    ∷ []

pub data ModelStatus : Type 0 where
  available unavailable : ModelStatus

pub record SubnetModelInfo : Type 0 where
  pub id : String
  pub created : ℕ
  pub subnet_id : ℕ
  pub capability : String
  pub status : ModelStatus
  pub parameters : Dict String String

module _ (M : Type 0) (size_of : M → ℕ) (settings : Settings) where
  abbrev if_positive : Bool → ModelStatus
  if_positive true = available
  if_positive false = unavailable

  abbrev status_from : Option M → ModelStatus
  status_from none = unavailable
  status_from (some mg) = if_positive (ltb 0 (size_of mg))

  unfoldable pub model_status : Option (Subnets M) → ℕ → ModelStatus
  model_status none netuid = unavailable
  model_status (some manager) netuid = status_from (get_metagraph M netuid manager)

  abbrev first_or_default : ℕ → List String → String
  first_or_default netuid [] = str_append "tao-sn" (str netuid)
  first_or_default netuid (name ∷ names) = name

  -- One round of the loop.
  abbrev pub model_info :
      Option (Subnets M) → ℕ → AdapterInfo AdapterClass (class_config settings) → SubnetModelInfo
  model_info manager created info =
      let netuid = info.config.netuid in
      record {
        id = first_or_default netuid info.model_names;
        created = created;
        subnet_id = netuid;
        capability = capability_of info.adapter;
        status = model_status manager netuid;
        parameters = parameters_of info.adapter;
      }

  unfoldable pub list_models : Registered settings → Option (Subnets M) → ℕ → List SubnetModelInfo
  list_models registry manager created =
      map (model_info manager created) (list_all AdapterClass (class_config settings) registry)
