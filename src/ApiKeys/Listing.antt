-- ===== src/ApiKeys/Listing.antt =====
-- `list_api_keys` of gateway/services/api_key_service.py, and the dependencies `get_current_org_id`
-- and `require_admin` of gateway/middleware/auth.py. `verify_jwt_token` is that of
-- gateway/services/auth_service.py, and `parse_uuid` the parser of identifiers.
use mathlib.Core.List.{reverse}
use tao_gateway.Base.{
  ℕ, String, Bool, ◌&&◌, ◌||◌, Option, none, some, List, [], ◌∷◌, length, keep, take, drop, str_eq,
  if◌then◌else◌,
}
use tao_gateway.Errors.{authentication_error, authorization_error, Result, ok, err}
use tao_gateway.ApiKeys.{ApiKey, Table}

-- The newest key, the last of the table, comes first.
unfoldable pub list_api_keys : String → Table → ℕ → ℕ → Bool → List ApiKey × ℕ
list_api_keys org_id keys limit offset include_revoked =
    let found =
      keep (λ (k : ApiKey). str_eq k.org_id org_id && (include_revoked || k.is_active)) keys in
    (take limit (drop offset (reverse found)), length found)

module _ (verify_jwt_token : String → Result String) (parse_uuid : String → Option String) where
  abbrev read_org_id : Result String → Result String
  read_org_id (err e) = err e
  read_org_id (ok org_id) = elim (parse_uuid org_id) [
    | none ↦ err (authentication_error "Invalid token")
    | some id ↦ ok id
  ]

  -- The token of the header, or else that of the cookie.
  abbrev pub token_of : Option String → Option String → Option String
  token_of (some credentials) cookie = some credentials
  token_of none cookie = cookie

  abbrev org_of_token : Option String → Result String
  org_of_token none = err (authentication_error "Missing authorization")
  org_of_token (some token) = read_org_id (verify_jwt_token token)

  unfoldable pub get_current_org_id : Option String → Option String → Result String
  get_current_org_id credentials cookie = org_of_token (token_of credentials cookie)

-- A row of the organisations: its id and `is_admin`.
unfoldable pub require_admin : List (String × Bool) → String → Result String
require_admin [] org_id = err (authorization_error "Admin access required")
require_admin ((id, is_admin) ∷ organizations) org_id =
    let rest = require_admin organizations org_id in
    if str_eq id org_id
    then (if is_admin then ok org_id else err (authorization_error "Admin access required"))
    else rest
