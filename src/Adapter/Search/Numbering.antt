-- ===== src/Adapter/Search/Numbering.antt =====
-- The answer of gateway/subnets/sn22_search.py, against the items of the miner.
use tao_gateway.Base.{
  ℕ, zero, suc, ◌+◌, ◌≡◌, refl, ap, ◌∙◌, inl, inr, String, Bool, Option, some, List, [], ◌∷◌,
  length, get_elem?, keep, map, All, arith, Bool-cases,
}
use tao_gateway.Adapter.Search.{
  SearchRequest, get_or, RawItem, item, unreadable, SearchResult, is_text, parse_results,
  from_response, number_from, valid_results, sanitize_output,
}

abbrev pub url_of : SearchResult → String
url_of r = r.url

-- The address of an item, if it can be read.
abbrev pub raw_url : RawItem → String
raw_url unreadable = ""
raw_url (item title url link snippet description) = get_or (get_or "" link) url

number_from-position :
    (i n : ℕ) (r : SearchResult) (results : List SearchResult)
    → get_elem? (number_from n results) i ≡ some r
    → r.position ≡ n + i
unfolding number_from
number_from-position i n r [] h = cc
number_from-position zero n r (q ∷ results) h = ground arith
number_from-position (suc i) n r (q ∷ results) h =
    number_from-position i (suc n) r results h ∙ omega arith

number_from-url :
    (n : ℕ) (results : List SearchResult) → map url_of (number_from n results) ≡ map url_of results
unfolding number_from
number_from-url n [] = refl
number_from-url n (r ∷ results) = ap (λ l. r.url ∷ l) (number_from-url (suc n) results)

parse_results-url :
    (items : List RawItem) → map url_of (parse_results items) ≡ keep is_text (map raw_url items)
unfolding parse_results
parse_results-url [] = refl
parse_results-url (unreadable ∷ items) = parse_results-url items
parse_results-url (item title url link snippet description ∷ items) =
    let found = get_or (get_or "" link) url in
    elim (Bool-cases (is_text found)) [
      | inl h ↦ rw h (ap (λ l. found ∷ l) (parse_results-url items))
      | inr h ↦ rw h (parse_results-url items)
    ]

module _ (clean : String → String) (is_valid_url : String → Bool) where
  valid_results-url :
      (results : List SearchResult)
      → map url_of (valid_results clean is_valid_url results)
        ≡ keep is_valid_url (map url_of results)
  unfolding valid_results
  valid_results-url [] = refl
  valid_results-url (r ∷ results) = elim (Bool-cases (is_valid_url r.url)) [
    | inl h ↦ rw h (ap (λ l. r.url ∷ l) (valid_results-url results))
    | inr h ↦ rw h (valid_results-url results)
  ]

  -- The texts of a result are cleaned.
  abbrev pub IsCleaned : SearchResult → Type 0
  IsCleaned r =
      ((title : String) × (r.title ≡ clean title))
      × ((snippet : String) × (r.snippet ≡ clean snippet))

  valid_results-IsCleaned :
      (results : List SearchResult)
      → (n : ℕ) → All IsCleaned (number_from n (valid_results clean is_valid_url results))
  unfolding valid_results number_from
  valid_results-IsCleaned [] n = tt
  valid_results-IsCleaned (r ∷ results) n = elim (Bool-cases (is_valid_url r.url)) [
    | inl h ↦ rw h (((r.title, refl), (r.snippet, refl)), valid_results-IsCleaned results (suc n))
    | inr h ↦ rw h (valid_results-IsCleaned results n)
  ]

  -- Whatever items a miner returns, the addresses of the answer are the addresses of its items that
  -- are not empty and valid, in its order; the results are numbered from 1, their titles and
  -- snippets are cleaned, and the total is their number.
  pub sanitize_output_lem :
      (id : String) (request : SearchRequest) (raw : Option (List RawItem))
      → let body = sanitize_output clean is_valid_url (from_response id request raw) in
        (map url_of body.results ≡ keep is_valid_url (keep is_text (map raw_url (get_or [] raw))))
        × ((i : ℕ) (r : SearchResult) → get_elem? body.results i ≡ some r → r.position ≡ suc i)
        × All IsCleaned body.results
        × (body.total_results ≡ length body.results)
  unfolding sanitize_output from_response
  sanitize_output_lem id request raw =
      let parsed = parse_results (get_or [] raw) in
      let valid = valid_results clean is_valid_url parsed in
      (
        number_from-url 1 valid
            ∙ valid_results-url parsed
            ∙ ap (keep is_valid_url) (parse_results-url (get_or [] raw)),
        λ i r h. number_from-position i 1 r valid h ∙ omega arith,
        valid_results-IsCleaned parsed 1,
        refl,
      )
