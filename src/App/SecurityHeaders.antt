-- ===== src/App/SecurityHeaders.antt =====
-- gateway/middleware/security_headers.py: the headers that each response over HTTP gets.
use text.Mathlib.Text.{starts_with}
use tao_gateway.Base.{
  String, Bool, true, false, Option, none, some, List, [], ◌∷◌, ◌++◌, map, any, if◌then◌else◌,
}

abbrev pub Header : Type 0
Header = String × String

abbrev pub common_headers : List Header
common_headers =
    ("x-content-type-options", "nosniff")
    ∷ ("x-frame-options", "DENY")
    ∷ ("x-xss-protection", "0")
    ∷ ("referrer-policy", "strict-origin-when-cross-origin")
    ∷ []

abbrev pub api_csp : Header
api_csp = ("content-security-policy", "default-src 'none'; frame-ancestors 'none'")

abbrev pub spa_csp : Header
spa_csp = (
  "content-security-policy",
  "default-src 'self'; script-src 'self'; style-src 'self' 'unsafe-inline'; img-src 'self' data:; font-src 'self'",
)

abbrev pub hsts_header : Header
hsts_header = ("strict-transport-security", "max-age=31536000; includeSubDomains")

-- A message that the application sends: the start of a response, with its headers if it has any, or
-- another. `B` is what other fields a message has.
pub data Sent (B : Type 0) : Type 0 where
  response_start : Option (List Header) → B → Sent B
  other_sent : B → Sent B

abbrev pub is_api : String → Bool
is_api path = any (starts_with path) ("/v1/" ∷ "/auth/" ∷ "/admin/" ∷ "/dashboard/" ∷ [])

abbrev or_no_headers : Option (List Header) → List Header
or_no_headers none = []
or_no_headers (some headers) = headers

-- The arguments of `send_with_headers` are the settings' `debug` and the path.
unfoldable pub send_with_headers : {B : Type 0} → Bool → String → Sent B → Sent B
send_with_headers debug path (other_sent rest) = other_sent rest
send_with_headers debug path (response_start headers rest) =
    response_start
      (some (
        (or_no_headers headers ++ common_headers)
        ++ ((if is_api path then api_csp else spa_csp) ∷ (if debug then [] else hsts_header ∷ []))))
      rest

-- `__call__`: what the server gets of the messages that the application sends. The first argument
-- tells whether the scope is of the type http.
unfoldable pub security_headers :
    {B : Type 0} → Bool → Bool → String → List (Sent B) → List (Sent B)
security_headers false debug path messages = messages
security_headers true debug path messages = map (send_with_headers debug path) messages
