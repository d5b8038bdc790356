-- ===== src/Adapter/Search/Tests.antt =====
-- A search whose miner returns a result without an address, one with a bad address, and two others.
use text.Mathlib.Text.{starts_with}
use tao_gateway.Base.{
  ℕ, suc, ◌≡◌, refl, String, Bool, none, some, List, [], ◌∷◌, length, get_elem?, keep, map, All,
}
use tao_gateway.Adapter.Search.{
  SearchRequest, RawItem, item, unreadable, SearchResult, SearchBody, is_text, parse_results,
  from_response, number_from, valid_results, sanitize_output,
}
use tao_gateway.Adapter.Search.Numbering.{url_of, raw_url, IsCleaned, sanitize_output_lem}

abbrev is_https : String → Bool
is_https url = starts_with url "https://"

abbrev cleaned : String → String
cleaned s = "text"

abbrev request : SearchRequest
request = record { model = none; query = "tao"; num_results = some 3; offset = none }

abbrev items : List RawItem
items =
    item (some "<b>a</b>") (some "https://a.org") none (some "s") none
    ∷ item (some "b") none none none none
    ∷ unreadable
    ∷ item none (some "ftp://c.org") none none none
    ∷ item none none (some "https://d.org") none (some "d")
    ∷ []

abbrev found_body : SearchBody
found_body = sanitize_output cleaned is_https (from_response "search-1" request (some items))

abbrev shown : SearchResult → String × ℕ
shown r = (r.url, r.position)

two_results : map shown found_body.results ≡ (("https://a.org", 1) ∷ ("https://d.org", 2) ∷ [])
unfolding sanitize_output from_response parse_results valid_results number_from
two_results = refl

sanitize_output_lem_example :
    (map url_of found_body.results ≡ keep is_https (keep is_text (map raw_url items)))
    × ((i : ℕ) (r : SearchResult) → get_elem? found_body.results i ≡ some r → r.position ≡ suc i)
    × All (IsCleaned cleaned is_https) found_body.results
    × (found_body.total_results ≡ length found_body.results)
sanitize_output_lem_example = sanitize_output_lem cleaned is_https "search-1" request (some items)
