-- ===== src/Errors.antt =====
-- gateway/core/exceptions.py: the exceptions of the gateway, one constructor to a class, with the
-- arguments of its `__init__`. Texts are native strings; `retry_after` is never negative.
use tao_gateway.Base.{ℕ, ◌≡◌, refl, ◌⊎◌, inl, inr, String, Option, none, some, str_append}

pub data GatewayError : Type 0 where
  -- `GatewayError(message, status_code, error_type)`
  gateway_error : String → ℕ → String → GatewayError
  -- `(miner_uid, subnet)`
  miner_timeout_error : String → String → GatewayError
  miner_invalid_response_error : String → String → GatewayError
  -- `(subnet, reason)`
  subnet_unavailable_error : String → String → GatewayError
  -- `(message, subnet, retry_after)`
  rate_limit_exceeded_error : String → Option String → ℕ → GatewayError
  authentication_error : String → GatewayError
  authorization_error : String → GatewayError

unfoldable pub message : GatewayError → String
message (gateway_error m _ _) = m
message (miner_timeout_error _ subnet) = str_append "Miner timed out on " subnet
message (miner_invalid_response_error _ subnet) =
    str_append "Invalid response from miner on " subnet
message (subnet_unavailable_error subnet _) =
    str_append (str_append "Subnet " subnet) " is unavailable"
message (rate_limit_exceeded_error m _ _) = m
message (authentication_error m) = m
message (authorization_error m) = m

unfoldable pub status_code : GatewayError → ℕ
status_code (gateway_error _ code _) = code
status_code (miner_timeout_error _ _) = 504
status_code (miner_invalid_response_error _ _) = 502
status_code (subnet_unavailable_error _ _) = 503
status_code (rate_limit_exceeded_error _ _ _) = 429
status_code (authentication_error _) = 401
status_code (authorization_error _) = 403

unfoldable pub error_type : GatewayError → String
error_type (gateway_error _ _ t) = t
error_type (miner_timeout_error _ _) = "gateway_timeout"
error_type (miner_invalid_response_error _ _) = "bad_gateway"
error_type (subnet_unavailable_error _ _) = "subnet_unavailable"
error_type (rate_limit_exceeded_error _ _ _) = "rate_limit_exceeded"
error_type (authentication_error _) = "authentication_error"
error_type (authorization_error _) = "authorization_error"

-- `getattr(exc, "miner_uid", None)`, and so for the other attributes.
unfoldable pub miner_uid : GatewayError → Option String
miner_uid (miner_timeout_error uid _) = some uid
miner_uid (miner_invalid_response_error uid _) = some uid
miner_uid _ = none

unfoldable pub reason : GatewayError → Option String
reason (subnet_unavailable_error _ r) = some r
reason _ = none

unfoldable pub subnet : GatewayError → Option String
subnet (miner_timeout_error _ s) = some s
subnet (miner_invalid_response_error _ s) = some s
subnet (subnet_unavailable_error s _) = some s
subnet (rate_limit_exceeded_error _ s _) = s
subnet _ = none

unfoldable pub retry_after : GatewayError → Option ℕ
retry_after (rate_limit_exceeded_error _ _ n) = some n
retry_after _ = none

-- What a call returns: a value, or the exception that it raises.
pub data Result {ℓ} (A : Type ℓ) : Type ℓ where
  ok : A → Result A
  err : GatewayError → Result A

infixl 5 ◌>>=◌
abbrev pub ◌>>=◌ {ℓ κ} : {A : Type ℓ} {B : Type κ} → Result A → (A → Result B) → Result B
ok a >>= f = f a
err e >>= f = err e

pub Result-cases {ℓ} :
    {A : Type ℓ} (r : Result A) → ((a : A) × (r ≡ ok a)) ⊎ ((e : GatewayError) × (r ≡ err e))
Result-cases (ok a) = inl (a, refl)
Result-cases (err e) = inr (e, refl)
