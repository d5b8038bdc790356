-- ===== src/Accounts/Session.antt =====
-- A session of the dashboard, from its login on, and what an answer to a signup shows.
use tao_gateway.Base.{
  ℕ, ◌+◌, ◌*◌, ◌≤◌, ◌≡◌, refl, sym, ap, ◌∙◌, inl, inr, String, Bool, Option, none, some, [], ◌∷◌,
  map, str_eq, arith, Bool-cases,
}
use tao_gateway.Errors.{ok}
use tao_gateway.Accounts.Interfaces.{
  Verification, verified, mismatch, invalid_hash, PasswordHasher, Jwt,
}
use tao_gateway.Accounts.{
  Organization, Organizations, normalize, find_email, get_org_by_id, Checked, passes, Rehash,
  commits, rolls_back, AuthSettings, add_org, new_org, signup, set_hash, rehash_with, try_rehash,
  judge, check_password, verify_credentials, create_jwt_token, subject_of, verify_jwt_token,
  with_token, login_with_org_id,
}
use tao_gateway.Accounts.Endpoints.{
  JsonAnswer, signup_response, post_signup, set_auth_cookies, cookie_of, token_from, Stored,
  start_session, login_dashboard, me, logout,
}

module _ (hasher : PasswordHasher) where
  added_shows :
      (id salt email password : String) (orgs : Organizations) (found : Option Organization)
      → signup_response id email
          (add_org hasher (new_org hasher id salt (normalize email) password) orgs found).0
        ≡ signup_response id email none
  added_shows id salt email password orgs none = refl
  added_shows id salt email password orgs (some org) = refl

  -- The answer to a signup is the same whatever accounts there are: it does not show whether the
  -- email is taken.
  pub post_signup-same :
      (id salt email password : String) (orgs others : Organizations)
      → (post_signup hasher id salt email password orgs).0
        ≡ (post_signup hasher id salt email password others).0
  unfolding post_signup signup
  post_signup-same id salt email password orgs others =
      added_shows id salt email password orgs (find_email (normalize email) orgs)
      ∙ sym (added_shows id salt email password others (find_email (normalize email) others))

  -- An id belongs to one row: a row that is found by its email is found by its id.
  abbrev pub IsIdentified : Organizations → Type 0
  IsIdentified orgs =
      (email : String) (org : Organization)
      → find_email email orgs ≡ some org
      → get_org_by_id org.id orgs ≡ some org

  set_hash-id : (k h : String) (org : Organization) → (set_hash hasher k h org).id ≡ org.id
  set_hash-id k h org = elim (Bool-cases (str_eq org.email k)) [
    | inl e ↦ rw e refl
    | inr e ↦ rw e refl
  ]

  -- What `me` shows of an account.
  abbrev shown : Organization → String × String × Bool
  shown org = (org.id, org.email, org.is_admin)

  set_hash-shown : (k h : String) (org : Organization) → shown (set_hash hasher k h org) ≡ shown org
  set_hash-shown k h org = elim (Bool-cases (str_eq org.email k)) [
    | inl e ↦ rw e refl
    | inr e ↦ rw e refl
  ]

  -- Both show one account.
  abbrev IsShown : Organizations → Organization → Type 0
  IsShown orgs org =
      (o : Organization) × (get_org_by_id org.id orgs ≡ some o) × (shown o ≡ shown org)

  set_hash-IsShown :
      (k h : String) (org : Organization) (orgs : Organizations)
      → get_org_by_id org.id orgs ≡ some org
      → IsShown (map (set_hash hasher k h) orgs) org
  unfolding get_org_by_id
  set_hash-IsShown k h org [] found = cc
  set_hash-IsShown k h org (o ∷ orgs) found = elim (Bool-cases (str_eq o.id org.id)) [
    | inl e ↦
        let same : o ≡ org = ground arith in
        (
          set_hash hasher k h o,
          rw (set_hash-id k h o, e) refl,
          set_hash-shown k h o ∙ ap shown same,
        )
    | inr e ↦ rw (set_hash-id k h o, e) (set_hash-IsShown k h org orgs (rw e at found))
  ]

  try_rehash-IsShown :
      (org : Organization) (password : String) (effort : Rehash) (orgs : Organizations)
      → get_org_by_id org.id orgs ≡ some org
      → IsShown (try_rehash hasher org password effort orgs) org
  unfolding try_rehash
  try_rehash-IsShown org password effort orgs found =
      elim (Bool-cases (hasher.check_needs_rehash org.password_hash)) [
        | inl e ↦ rw e (after_effort effort)
        | inr e ↦ rw e (org, found, refl)
      ]
    where
      after_effort :
          (effort : Rehash) → IsShown (rehash_with hasher org.email password effort orgs) org
      after_effort rolls_back = (org, found, refl)
      after_effort (commits salt) =
          set_hash-IsShown org.email (hasher.hash salt password) org orgs found

  module _ (jwt : Jwt) (settings : AuthSettings) (sha256 : String → String) where
    abbrev token_for : String → ℕ → String
    token_for org_id now = create_jwt_token hasher jwt settings org_id now

    verify_jwt_token-create :
        (org_id : String) (now later : ℕ)
        → now ≤ later
        → later + 1_000_000 ≤ now + settings.jwt_expire_minutes * 60_000_000
        → verify_jwt_token hasher jwt settings (token_for org_id now) later ≡ ok org_id
    unfolding verify_jwt_token create_jwt_token
    verify_jwt_token-create org_id now later a b =
        ap (subject_of hasher jwt settings) (jwt.decode_encode _ _ later a b)

    me-token :
        (org : Organization) (now later : ℕ) (s : Stored hasher jwt settings sha256)
        → IsShown s.orgs org
        → now ≤ later
        → later + 1_000_000 ≤ now + settings.jwt_expire_minutes * 60_000_000
        → me hasher jwt settings sha256 none (some (token_for org.id now)) later s
          ≡ ok (org.id, org.email, org.is_admin)
    unfolding me token_from
    me-token org now later s (o, found, same) a b =
        rw (verify_jwt_token-create org.id now later a b, found) (ap ok same)

    abbrev token_shown : Checked JsonAnswer → Option String
    token_shown (passes answer) = cookie_of "access_token" answer.cookies
    token_shown other = none

    -- A login that passes found an account, with which it goes on.
    login_found :
        (v : Verification) (org : Organization) (password : String) (effort : Rehash)
        (drawn : String) (now : ℕ) (s s' : Stored hasher jwt settings sha256) (answer : JsonAnswer)
        → let (checked, orgs') = judge hasher v org password effort s.orgs in
          start_session hasher jwt settings sha256 drawn now
              (with_token hasher jwt settings now checked)
              (record s { orgs = orgs' })
            ≡ (passes answer, s')
          → (cookie_of "access_token" answer.cookies ≡ some (token_for org.id now))
            × (s'.orgs ≡ try_rehash hasher org password effort s.orgs)
    unfolding set_auth_cookies cookie_of
    login_found verified org password effort drawn now s s' answer h =
        (sym (ap (λ p. token_shown p.0) h), sym (ap (λ p. p.1.orgs) h))
    login_found mismatch org password effort drawn now s s' answer h = cc
    login_found invalid_hash org password effort drawn now s s' answer h = cc

    login_found_row :
        (found : Option Organization) (password : String) (effort : Rehash) (drawn : String)
        (now : ℕ) (s s' : Stored hasher jwt settings sha256) (answer : JsonAnswer)
        → let (checked, orgs') = check_password hasher password effort s.orgs found in
          start_session hasher jwt settings sha256 drawn now
              (with_token hasher jwt settings now checked)
              (record s { orgs = orgs' })
            ≡ (passes answer, s')
          → (org : Organization) × (found ≡ some org)
            × (cookie_of "access_token" answer.cookies ≡ some (token_for org.id now))
            × (s'.orgs ≡ try_rehash hasher org password effort s.orgs)
    login_found_row none password effort drawn now s s' answer h = cc
    login_found_row (some org) password effort drawn now s s' answer h =
        let judged = hasher.verify org.password_hash password in
        let (cookie, orgs) = login_found judged org password effort drawn now s s' answer h in
        (org, refl, cookie, orgs)

    revoked_orgs :
        (refresh_token : Option String) (t : ℕ) (s : Stored hasher jwt settings sha256)
        → (logout hasher jwt settings sha256 refresh_token t s).1.orgs ≡ s.orgs
    unfolding logout
    revoked_orgs none t s = refl
    revoked_orgs (some token) t s = refl

    -- Let no two accounts have one id, and a login to the dashboard pass. Until the lifetime of its
    -- access token is over but for a second, the cookie of that token shows the account of the
    -- email that logged in; and it does so after a logout, too.
    pub login_dashboard-me :
        (email password : String) (effort : Rehash) (drawn : String) (now later : ℕ)
        (s s' : Stored hasher jwt settings sha256) (answer : JsonAnswer)
        (refresh_token : Option String) (t : ℕ)
        → IsIdentified s.orgs
        → login_dashboard hasher jwt settings sha256 email password effort drawn now s
          ≡ (passes answer, s')
        → now ≤ later
        → later + 1_000_000 ≤ now + settings.jwt_expire_minutes * 60_000_000
        → let cookie = cookie_of "access_token" answer.cookies in
          let after = (logout hasher jwt settings sha256 refresh_token t s').1 in
          (org : Organization) × (find_email (normalize email) s.orgs ≡ some org)
          × (me hasher jwt settings sha256 none cookie later s'
              ≡ ok (org.id, org.email, org.is_admin))
          × (me hasher jwt settings sha256 none cookie later after
              ≡ ok (org.id, org.email, org.is_admin))
    unfolding login_dashboard login_with_org_id verify_credentials
    login_dashboard-me email password effort drawn now later s s' answer refresh_token t ids h a b =
        let (org, found, cookie, orgs) =
          login_found_row (find_email (normalize email) s.orgs) password effort drawn now s s'
            answer h in
        let is = try_rehash-IsShown org password effort s.orgs (ids (normalize email) org found) in
        let at : IsShown s'.orgs org = rw orgs is in
        let after = (logout hasher jwt settings sha256 refresh_token t s').1 in
        let gone : IsShown after.orgs org = rw (revoked_orgs refresh_token t s') at in
        (
          org,
          found,
          rw cookie (me-token org now later s' at a b),
          rw cookie (me-token org now later after gone a b),
        )
