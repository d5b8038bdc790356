-- ===== src/Accounts.antt =====
-- gateway/services/auth_service.py: the accounts of the organizations and their logins, with
-- `try_rehash` of gateway/core/security.py. The table organizations is a list of rows with a unique
-- email; drawn ids and salts are arguments. A row is taken to be readable after a rollback.
pub mod Interfaces
pub mod Endpoints
pub mod Refinement
pub mod Session
mod Tests
use tao_gateway.Base.{
  ℕ, ◌+◌, ◌*◌, String, Bool, true, false, Option, none, some, List, [], ◌∷◌, ◌++◌, map, str_eq,
  lower, strip, if◌then◌else◌,
}
use tao_gateway.Errors.{GatewayError, authentication_error, Result, ok, err}
use tao_gateway.Accounts.Interfaces.{
  Verification, verified, mismatch, invalid_hash, PasswordHasher, Jwt,
}

pub record Organization : Type 0 where
  pub id : String
  pub email : String
  pub password_hash : String
  pub is_admin : Bool

abbrev pub Organizations : Type 0
Organizations = List Organization

-- `email.lower().strip()`
unfoldable pub normalize : String → String
normalize email = strip (lower email)

-- `where(Organization.email == email)`
unfoldable pub find_email : String → Organizations → Option Organization
find_email email [] = none
find_email email (org ∷ orgs) =
    let rest = find_email email orgs in if str_eq org.email email then some org else rest

-- `get_org_by_id`
unfoldable pub get_org_by_id : String → Organizations → Option Organization
get_org_by_id id [] = none
get_org_by_id id (org ∷ orgs) =
    let rest = get_org_by_id id orgs in if str_eq org.id id then some org else rest

-- What a call gives: a value, an exception of the gateway, or another exception.
pub data Checked (A : Type 0) : Type 0 where
  passes : A → Checked A
  refuses : GatewayError → Checked A
  crashes : Checked A

-- How the best effort on the hash ends: it commits the new hash, with this salt, or is rolled back.
pub data Rehash : Type 0 where
  commits : String → Rehash
  rolls_back : Rehash

abbrev pub invalid_credentials : GatewayError
invalid_credentials = authentication_error "Invalid credentials"

-- The settings that the accounts read.
pub record AuthSettings : Type 0 where
  pub debug : Bool
  pub jwt_secret_key : String
  pub jwt_expire_minutes : ℕ
  pub refresh_token_expire_days : ℕ

abbrev pub jwt_issuer : String
jwt_issuer = "tao-gateway"

abbrev pub jwt_audience : String
jwt_audience = "tao-gateway-dashboard"

module _ (hasher : PasswordHasher) where
  abbrev pub new_org : String → String → String → String → Organization
  new_org id salt email password = record {
    id = id;
    email = email;
    password_hash = hasher.hash salt password;
    is_admin = false;
  }

  abbrev pub add_org :
      Organization → Organizations → Option Organization → Option Organization × Organizations
  add_org org orgs none = (some org, orgs ++ (org ∷ []))
  add_org org orgs (some other) = (none, orgs)

  -- `signup`; none is the `IntegrityError` of an email that is there.
  unfoldable pub signup :
      String → String → String → String → Organizations → Option Organization × Organizations
  signup id salt email password orgs =
      let email' = normalize email in
      add_org (new_org id salt email' password) orgs (find_email email' orgs)

  abbrev pub set_hash : String → String → Organization → Organization
  set_hash email new_hash org =
      if str_eq org.email email then record org { password_hash = new_hash } else org

  abbrev pub rehash_with : String → String → Rehash → Organizations → Organizations
  rehash_with email password rolls_back orgs = orgs
  rehash_with email password (commits salt) orgs =
      map (set_hash email (hasher.hash salt password)) orgs

  -- `try_rehash`
  unfoldable pub try_rehash : Organization → String → Rehash → Organizations → Organizations
  try_rehash org password effort orgs =
      if hasher.check_needs_rehash org.password_hash
      then rehash_with org.email password effort orgs
      else orgs

  abbrev pub judge :
      Verification
      → Organization
      → String
      → Rehash
      → Organizations
      → Checked Organization × Organizations
  judge verified org password effort orgs = (passes org, try_rehash org password effort orgs)
  judge mismatch org password effort orgs = (refuses invalid_credentials, orgs)
  judge invalid_hash org password effort orgs = (crashes, orgs)

  abbrev pub check_password :
      String → Rehash → Organizations → Option Organization → Checked Organization × Organizations
  check_password password effort orgs none = (refuses invalid_credentials, orgs)
  check_password password effort orgs (some org) =
      judge (hasher.verify org.password_hash password) org password effort orgs

  -- `_verify_credentials`; the verification against the dummy hash has no result.
  unfoldable pub verify_credentials :
      String → String → Rehash → Organizations → Checked Organization × Organizations
  verify_credentials email password effort orgs =
      check_password password effort orgs (find_email (normalize email) orgs)

  module _ (jwt : Jwt) (settings : AuthSettings) where
    unfoldable pub create_jwt_token : String → ℕ → String
    create_jwt_token org_id now =
        jwt.encode
          (record {
            sub = org_id;
            iss = jwt_issuer;
            aud = jwt_audience;
            iat = now;
            exp = now + settings.jwt_expire_minutes * 60_000_000;
          })
          settings.jwt_secret_key

    abbrev pub subject_of : Option (Option String) → Result String
    subject_of none = err (authentication_error "Invalid or expired token")
    subject_of (some none) = err (authentication_error "Invalid token")
    subject_of (some (some sub)) = ok sub

    unfoldable pub verify_jwt_token : String → ℕ → Result String
    verify_jwt_token token now =
        subject_of (jwt.decode now token settings.jwt_secret_key jwt_issuer jwt_audience)

    abbrev pub with_token : ℕ → Checked Organization → Checked (String × String)
    with_token now (passes org) = passes (create_jwt_token org.id now, org.id)
    with_token now (refuses e) = refuses e
    with_token now crashes = crashes

    unfoldable pub login_with_org_id :
        String → String → Rehash → ℕ → Organizations → Checked (String × String) × Organizations
    login_with_org_id email password effort now orgs =
        let (checked, orgs') = verify_credentials email password effort orgs in
        (with_token now checked, orgs')

    abbrev pub token_only : Checked (String × String) → Checked String
    token_only (passes (token, id)) = passes token
    token_only (refuses e) = refuses e
    token_only crashes = crashes

    unfoldable pub login :
        String → String → Rehash → ℕ → Organizations → Checked String × Organizations
    login email password effort now orgs =
        let (answer, orgs') = login_with_org_id email password effort now orgs in
        (token_only answer, orgs')
