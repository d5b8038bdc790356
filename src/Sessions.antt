-- ===== src/Sessions.antt =====
-- gateway/services/auth_service.py: the refresh tokens of the dashboard's sessions. The table
-- refresh_tokens is a list of rows; the column token_hash is unique, so that a hash stands for its
-- row. Times are whole microseconds.
pub mod Rotation
mod Tests
use tao_gateway.Base.{
  ℕ, ◌+◌, String, Bool, true, false, not, ◌&&◌, ◌||◌, Option, none, some, List, [], ◌∷◌, ◌++◌, keep,
  map, ltb, str_eq, if◌then◌else◌,
}
use tao_gateway.Errors.{GatewayError, authentication_error, Result, ok, err}

pub record RefreshToken : Type 0 where
  pub token_hash : String
  pub org_id : String
  pub expires_at : ℕ
  pub revoked_at : Option ℕ

abbrev pub Table : Type 0
Table = List RefreshToken

abbrev pub is_revoked : RefreshToken → Bool
is_revoked r = elim r.revoked_at [ none ↦ false | some t ↦ true ]

-- `where(RefreshToken.token_hash == …)`
unfoldable pub find_token : String → Table → Option RefreshToken
find_token h [] = none
find_token h (r ∷ rows) =
    let rest = find_token h rows in if str_eq r.token_hash h then some r else rest

abbrev pub mark : String → ℕ → RefreshToken → RefreshToken
mark h now r = if str_eq r.token_hash h then record r { revoked_at = some now } else r

-- The rows that the cleanup leaves: of other organizations, neither expired nor revoked, or the one
-- that was just revoked.
abbrev pub is_left : String → String → ℕ → RefreshToken → Bool
is_left h org_id now r = not (
    str_eq r.org_id org_id && (ltb r.expires_at now || is_revoked r) && not (str_eq r.token_hash h))

-- `sha256` is the digest, `lifetime` the days of a refresh token.
module _ (sha256 : String → String) (lifetime : ℕ) where
  abbrev pub new_row : String → String → ℕ → RefreshToken
  new_row raw_token org_id now = record {
    token_hash = sha256 raw_token;
    org_id = org_id;
    expires_at = now + lifetime;
    revoked_at = none;
  }

  -- `raw_token` is what `token_urlsafe` draws.
  abbrev pub create_refresh_token : String → String → ℕ → Table → Table
  create_refresh_token raw_token org_id now rows = rows ++ (new_row raw_token org_id now ∷ [])

  abbrev pub exchange :
      String → ℕ → String → Table → RefreshToken → Result (String × String) × Table
  exchange h now drawn rows r = (
    ok (r.org_id, drawn),
    create_refresh_token drawn r.org_id now (keep (is_left h r.org_id now) (map (mark h now) rows)),
  )

  abbrev pub check_token :
      String → ℕ → String → Table → Option RefreshToken → Result (String × String) × Table
  check_token h now drawn rows none = (err (authentication_error "Invalid refresh token"), rows)
  check_token h now drawn rows (some r) =
      if is_revoked r
      then (err (authentication_error "Refresh token has been revoked"), rows)
      else if ltb r.expires_at now
      then (err (authentication_error "Refresh token has expired"), rows)
      else exchange h now drawn rows r

  -- `rotate_refresh_token`, at one time `now`; the result has the organization, which the new JWT
  -- names, and the new refresh token.
  unfoldable pub rotate_refresh_token :
      String → ℕ → String → Table → Result (String × String) × Table
  rotate_refresh_token old_token now drawn rows =
      check_token (sha256 old_token) now drawn rows (find_token (sha256 old_token) rows)

  abbrev pub revoke_row : String → ℕ → Table → Option RefreshToken → Table
  revoke_row h now rows none = rows
  revoke_row h now rows (some r) = if is_revoked r then rows else map (mark h now) rows

  unfoldable pub revoke_refresh_token : String → ℕ → Table → Table
  revoke_refresh_token token now rows =
      revoke_row (sha256 token) now rows (find_token (sha256 token) rows)
