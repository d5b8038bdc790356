-- ===== src/Accounts/Interfaces.antt =====
-- What gateway/services/auth_service.py takes from argon2 and PyJWT: the hashing of passwords and the
-- signed tokens. They are no part of the program, and so parameters, with what their documentation
-- says. Times are whole microseconds; a token has its times in whole seconds.
use tao_gateway.Base.{ℕ, ◌+◌, ◌≤◌, ◌≡◌, String, Bool, Option, none, some, str_eq, if◌then◌else◌}

-- `ph.verify` returns, raises `VerifyMismatchError`, or raises another exception.
pub data Verification : Type 0 where
  verified mismatch invalid_hash : Verification

-- `hash` takes the drawn salt, too.
pub record PasswordHasher : Type 0 where
  pub hash : String → String → String
  pub verify : String → String → Verification
  pub check_needs_rehash : String → Bool
  pub verify_hash :
      (salt password tried : String)
      → verify (hash salt password) tried ≡ (if str_eq password tried then verified else mismatch)

pub record Payload : Type 0 where
  pub sub : String
  pub iss : String
  pub aud : String
  pub iat : ℕ
  pub exp : ℕ

-- `decode` takes the time, the token, the secret, the issuer and the audience, and gives `sub` of
-- the payload, if it has one, or raises.
pub record Jwt : Type 0 where
  pub encode : Payload → String → String
  pub decode : ℕ → String → String → String → String → Option (Option String)
  pub decode_encode :
      (p : Payload) (secret : String) (now : ℕ)
      → p.iat ≤ now
      → now + 1_000_000 ≤ p.exp
      → decode now (encode p secret) secret p.iss p.aud ≡ some (some p.sub)
  pub decode_expired :
      (p : Payload) (secret : String) (now : ℕ)
      → p.exp ≤ now
      → decode now (encode p secret) secret p.iss p.aud ≡ none
