-- ===== src/ErrorHandler.antt =====
-- gateway/middleware/error_handler.py: the responses to the exceptions. The logging is left out.
pub mod Gateway
pub mod Validation
mod Tests
use tao_gateway.Base.{
  ℕ, String, Bool, true, false, not, Option, none, some, List, [], ◌∷◌, keep, any, map, ltb,
  nat_beq, ◌||◌, str_eq, str, str_append, if◌then◌else◌, string_eq,
}
use tao_gateway.Base.Dict.{Dict, insert}
use tao_gateway.Errors.{
  GatewayError, message, status_code, error_type, miner_uid, reason, subnet, retry_after,
}
use tao_gateway.RateLimit.Limits.{RateLimitResult, to_headers}

-- A value of the error body.
pub data Value : Type 0 where
  text : String → Value
  number : ℕ → Value

pub record Response : Type 0 where
  pub status : ℕ
  pub body : Dict String Value
  pub headers : Dict String String

-- `if value is not None: body[name] = value`
abbrev pub with_text : String → Option String → Dict String Value → Dict String Value
with_text name none body = body
with_text name (some t) body = insert name (text t) body

abbrev pub with_retry : Option ℕ → Dict String Value → Dict String Value
with_retry none body = body
with_retry (some n) body = if ltb 0 n then insert "retry_after" (number n) body else body

-- `_MINER_ERROR_CODES`
abbrev pub is_miner_error_code : ℕ → Bool
is_miner_error_code code = nat_beq code 502 || nat_beq code 504

abbrev pub with_miner_uid : ℕ → Option String → Dict String Value → Dict String Value
with_miner_uid code uid body =
    if is_miner_error_code code then with_text "miner_uid" uid body else body

unfoldable pub error_body : GatewayError → Dict String Value
error_body exc = with_miner_uid (status_code exc) (miner_uid exc) (
    with_retry (retry_after exc) (
      with_text "subnet" (subnet exc) (
        with_text "reason" (reason exc) (
          ("type", text (error_type exc))
          ∷ ("message", text (message exc))
          ∷ ("code", number (status_code exc))
          ∷ []))))

abbrev pub retry_header : Option ℕ → Dict String String
retry_header none = []
retry_header (some n) = if ltb 0 n then ("Retry-After", str n) ∷ [] else []

-- `headers.update(…)`
abbrev pub update : Dict String String → Dict String String → Dict String String
update headers [] = headers
update headers ((k, v) ∷ more) = update (insert k v headers) more

abbrev pub with_limits : Option RateLimitResult → Dict String String → Dict String String
with_limits none headers = headers
with_limits (some result) headers = update headers (to_headers result)

-- The first argument is `request.state.rate_limit_result`.
unfoldable pub gateway_exception_handler : Option RateLimitResult → GatewayError → Response
unfolding error_body
gateway_exception_handler rate_result exc = record {
  status = status_code exc;
  body = error_body exc;
  headers = with_limits rate_result (retry_header (retry_after exc));
}

-- A segment of the location of a validation error.
pub data Segment : Type 0 where
  name : String → Segment
  index : ℕ → Segment

abbrev pub is_source : Segment → Bool
is_source (name s) = str_eq s "body" || str_eq s "query" || str_eq s "path"
is_source (index n) = false

abbrev pub shown : Segment → String
shown (name s) = s
shown (index n) = str n

-- `".".join(parts)`
abbrev pub join : List String → String
join [] = ""
join (p ∷ []) = p
join (p ∷ q ∷ parts) = str_append p (str_append "." (join (q ∷ parts)))

abbrev pub named : List String → String
named [] = "unknown"
named (p ∷ parts) = join (p ∷ parts)

unfoldable pub field : List Segment → String
field loc = named (map shown (keep (λ s. not (is_source s)) loc))

-- An error of `exc.errors()`: its location and message, each `none` where the key is missing.
pub record ValidationError : Type 0 where
  pub loc : Option (List Segment)
  pub msg : Option String

abbrev pub or_else : Option String → String → String
or_else none t = t
or_else (some s) t = s

abbrev pub loc_of : Option (List Segment) → List Segment
loc_of none = []
loc_of (some loc) = loc

pub record FieldError : Type 0 where
  pub field_name : String
  pub message : String

pub record ValidationResponse : Type 0 where
  pub status : ℕ
  pub body : Dict String Value
  pub errors : List FieldError

unfoldable pub validation_exception_handler : List ValidationError → ValidationResponse
unfolding field
validation_exception_handler errors = record {
  status = 422;
  body =
      ("type", text "validation_error")
      ∷ ("message", text "Request validation failed")
      ∷ ("code", number 422)
      ∷ [];
  errors =
      map
        (λ e. record {
          field_name = field (loc_of e.loc);
          message = or_else e.msg "Validation error";
        })
        errors;
}

abbrev pub internal_exception_handler : Response
internal_exception_handler = record {
  status = 500;
  body =
      ("type", text "internal_error")
      ∷ ("message", text "An internal error occurred")
      ∷ ("code", number 500)
      ∷ [];
  headers = [];
}
