-- ===== src/Adapter/Search.antt =====
-- gateway/subnets/sn22_search.py: what the adapter of the search subnet converts. `clean` is
-- `sanitize_text` of gateway/subnets/base.py on a text, and `is_valid_url` the test of that name,
-- which rests on `urlparse`; the drawn id is an argument. The logging is left out.
pub mod Numbering
mod Tests
use tao_gateway.Base.{
  ℕ, suc, String, str_eq, Bool, true, false, not, Option, none, some, List, [], ◌∷◌, length,
  if◌then◌else◌,
}

pub record SearchRequest : Type 0 where
  pub model : Option String
  pub query : String
  pub num_results : Option ℕ
  pub offset : Option ℕ

pub record WebSearchSynapse : Type 0 where
  pub query : String
  pub num : ℕ
  pub start : ℕ

abbrev pub get_or : {A : Type 0} → A → Option A → A
get_or a none = a
get_or a (some b) = b

unfoldable pub to_synapse : SearchRequest → WebSearchSynapse
to_synapse request = record {
  query = request.query;
  num = get_or 10 request.num_results;
  start = get_or 0 request.offset;
}

-- An item of the miner, with the texts of its fields title, url, link, snippet and description, as
-- far as it has them; or one whose reading raises.
pub data RawItem : Type 0 where
  item : Option String → Option String → Option String → Option String → Option String → RawItem
  unreadable : RawItem

pub record SearchResult : Type 0 where
  pub title : String
  pub url : String
  pub snippet : String
  pub position : ℕ

pub record SearchBody : Type 0 where
  pub id : String
  pub model : String
  pub query : String
  pub results : List SearchResult
  pub total_results : ℕ

abbrev pub is_text : String → Bool
is_text s = not (str_eq s "")

-- The loop of `from_response`.
unfoldable pub parse_results : List RawItem → List SearchResult
parse_results [] = []
parse_results (unreadable ∷ items) = parse_results items
parse_results (item title url link snippet description ∷ items) =
    let rest = parse_results items in
    let found = get_or (get_or "" link) url in
    if is_text found
    then record {
      title = get_or "" title;
      url = found;
      snippet = get_or (get_or "" description) snippet;
      position = 0;
    }
      ∷ rest
    else rest

abbrev with_results : String → SearchRequest → List SearchResult → SearchBody
with_results id request results = record {
  id = id;
  model = get_or "tao-sn22" request.model;
  query = request.query;
  results = results;
  total_results = length results;
}

unfoldable pub from_response : String → SearchRequest → Option (List RawItem) → SearchBody
from_response id request raw_results =
    with_results id request (parse_results (get_or [] raw_results))

-- The second loop of `sanitize_output`, from a position.
unfoldable pub number_from : ℕ → List SearchResult → List SearchResult
number_from i [] = []
number_from i (r ∷ results) = record r { position = i } ∷ number_from (suc i) results

module _ (clean : String → String) (is_valid_url : String → Bool) where
  -- The first loop of `sanitize_output`.
  unfoldable pub valid_results : List SearchResult → List SearchResult
  valid_results [] = []
  valid_results (r ∷ results) =
      let rest = valid_results results in
      if is_valid_url r.url
      then record r { title = clean r.title; snippet = clean r.snippet } ∷ rest
      else rest

  unfoldable pub sanitize_output : SearchBody → SearchBody
  sanitize_output body =
      let valid = number_from 1 (valid_results body.results) in
      record body { results = valid; total_results = length valid }
