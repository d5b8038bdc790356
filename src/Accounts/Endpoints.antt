-- ===== src/Accounts/Endpoints.antt =====
-- gateway/api/auth.py: the endpoints for accounts, behind the limit by address of AuthLimit/Guard. A
-- request has passed the schemas of gateway/schemas/auth.py. The logging is left out.
use text.Mathlib.Text.{starts_with}
use tao_gateway.Base.{
  ℕ, ◌*◌, String, Bool, true, false, not, Option, none, some, List, [], ◌∷◌, str_eq, lower, suffix,
  if◌then◌else◌,
}
use tao_gateway.Errors.{authentication_error, Result, ok, err}
use tao_gateway.Sessions.{Table, create_refresh_token, rotate_refresh_token, revoke_refresh_token}
use tao_gateway.Accounts.Interfaces.{PasswordHasher, Jwt}
use tao_gateway.Accounts.{
  Organization, Organizations, normalize, get_org_by_id, Checked, passes, refuses, crashes, Rehash,
  AuthSettings, signup, create_jwt_token, verify_jwt_token, login_with_org_id, login,
}

pub record SignupResponse : Type 0 where
  pub id : String
  pub email : String
  pub message : String

-- A cookie that a response sets; `samesite` is lax in all of them.
pub record SetCookie : Type 0 where
  pub key : String
  pub value : String
  pub httponly : Bool
  pub secure : Bool
  pub path : String
  pub max_age : ℕ

pub record JsonAnswer : Type 0 where
  pub message : String
  pub cookies : List SetCookie

abbrev created_message : String
created_message = "Account created successfully"

-- What is answered, from what the service gives: `id` is the drawn id, of the row or a fake one.
abbrev pub signup_response : String → String → Option Organization → SignupResponse
signup_response id email none = record {
  id = id;
  email = normalize email;
  message = created_message;
}
signup_response id email (some org) = record {
  id = org.id;
  email = org.email;
  message = created_message;
}

abbrev auth_cookie : AuthSettings → String → String → String → ℕ → SetCookie
auth_cookie settings key value path max_age = record {
  key = key;
  value = value;
  httponly = true;
  secure = not settings.debug;
  path = path;
  max_age = max_age;
}

-- `_set_auth_cookies`
unfoldable pub set_auth_cookies : AuthSettings → String → String → List SetCookie
set_auth_cookies settings access_token refresh_token =
    auth_cookie settings "access_token" access_token "/" (settings.jwt_expire_minutes * 60)
    ∷ auth_cookie settings "refresh_token" refresh_token "/auth/refresh"
        (settings.refresh_token_expire_days * 86400)
    ∷ []

abbrev cleared : String → String → SetCookie
cleared key path = record {
  key = key;
  value = "";
  httponly = false;
  secure = false;
  path = path;
  max_age = 0;
}

-- `_clear_auth_cookies`
unfoldable pub clear_auth_cookies : List SetCookie
clear_auth_cookies = cleared "access_token" "/" ∷ cleared "refresh_token" "/auth/refresh" ∷ []

-- `request.cookies.get(key)`, of a browser that keeps what a response sets.
unfoldable pub cookie_of : String → List SetCookie → Option String
cookie_of key [] = none
cookie_of key (c ∷ cookies) =
    let rest = cookie_of key cookies in if str_eq c.key key then some c.value else rest

-- The token of the header, or else that of the cookie; an empty header counts as none.
unfoldable pub token_from : Option String → Option String → Option String
token_from none cookie = cookie
token_from (some auth_header) cookie =
    if starts_with (lower auth_header) "bearer " then some (suffix 7 auth_header) else cookie

module _ (hasher : PasswordHasher) where
  -- `signup`
  unfoldable pub post_signup :
      String → String → String → String → Organizations → SignupResponse × Organizations
  post_signup id salt email password orgs =
      let (org, orgs') = signup hasher id salt email password orgs in
      (signup_response id email org, orgs')

pub record LoginResponse : Type 0 where
  pub access_token : String
  pub token_type : String

abbrev bearer : Checked String → Checked LoginResponse
bearer (passes token) = passes (record { access_token = token; token_type = "bearer" })
bearer (refuses e) = refuses e
bearer crashes = crashes

module _ (hasher : PasswordHasher) (jwt : Jwt) (settings : AuthSettings)
    (sha256 : String → String) where
  abbrev pub lifetime : ℕ
  lifetime = settings.refresh_token_expire_days * 86_400_000_000

  pub record Stored : Type 0 where
    pub orgs : Organizations
    pub tokens : Table

  -- `login`
  unfoldable pub post_login :
      String → String → Rehash → ℕ → Organizations → Checked LoginResponse × Organizations
  post_login email password effort now orgs =
      let (answer, orgs') = login hasher jwt settings email password effort now orgs in
      (bearer answer, orgs')

  abbrev pub start_session :
      String → ℕ → Checked (String × String) → Stored → Checked JsonAnswer × Stored
  start_session drawn now (refuses e) s = (refuses e, s)
  start_session drawn now crashes s = (crashes, s)
  start_session drawn now (passes (access_token, org_id)) s = (
    passes (record {
      message = "Login successful";
      cookies = set_auth_cookies settings access_token drawn;
    }),
    record s { tokens = create_refresh_token sha256 lifetime drawn org_id now s.tokens },
  )

  -- `login_dashboard`; `drawn` is the new refresh token.
  unfoldable pub login_dashboard :
      String → String → Rehash → String → ℕ → Stored → Checked JsonAnswer × Stored
  login_dashboard email password effort drawn now s =
      let (answer, orgs') =
        login_with_org_id hasher jwt settings email password effort now s.orgs in
      start_session drawn now answer (record s { orgs = orgs' })

  abbrev refreshed : ℕ → Result (String × String) × Table → Stored → Result JsonAnswer × Stored
  refreshed now (err e, tokens') s = (err e, record s { tokens = tokens' })
  refreshed now (ok (org_id, new_refresh), tokens') s = (
    ok (record {
      message = "Token refreshed";
      cookies =
          set_auth_cookies settings (create_jwt_token hasher jwt settings org_id now) new_refresh;
    }),
    record s { tokens = tokens' },
  )

  unfoldable pub refresh : Option String → String → ℕ → Stored → Result JsonAnswer × Stored
  refresh none drawn now s = (err (authentication_error "Missing refresh token"), s)
  refresh (some refresh_token) drawn now s =
      refreshed now (rotate_refresh_token sha256 lifetime refresh_token now drawn s.tokens) s

  abbrev pub account_of : Option Organization → Result (String × String × Bool)
  account_of none = err (authentication_error "Not authenticated")
  account_of (some org) = ok (org.id, org.email, org.is_admin)

  abbrev pub me_of : Result String → Stored → Result (String × String × Bool)
  me_of (err e) s = err e
  me_of (ok org_id) s = account_of (get_org_by_id org_id s.orgs)

  abbrev pub me_with : Option String → ℕ → Stored → Result (String × String × Bool)
  me_with none now s = err (authentication_error "Not authenticated")
  me_with (some token) now s = me_of (verify_jwt_token hasher jwt settings token now) s

  -- The header `authorization` and the cookie `access_token`.
  unfoldable pub me : Option String → Option String → ℕ → Stored → Result (String × String × Bool)
  me auth_header cookie now s = me_with (token_from auth_header cookie) now s

  abbrev revoked : Option String → ℕ → Stored → Stored
  revoked none now s = s
  revoked (some token) now s = record s {
    tokens = revoke_refresh_token sha256 lifetime token now s.tokens;
  }

  unfoldable pub logout : Option String → ℕ → Stored → JsonAnswer × Stored
  logout refresh_token now s =
      (record { message = "Logged out"; cookies = clear_auth_cookies }, revoked refresh_token now s)
