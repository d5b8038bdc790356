-- ===== src/App/BodyLimit.antt =====
-- `limit_request_body_size` of gateway/main.py. `int_of` is Python's `int` of a text, with none for
-- its `ValueError`; `R` is the type of a response of the application, which is a function of the
-- messages that it receives.
pub mod Bound
use tao_gateway.Base.{
  ℕ, ◌+◌, ◌<◌, String, Bool, true, false, Option, none, some, List, [], ◌∷◌, length, ltb,
  if◌then◌else◌,
}
use tao_gateway.Base.Int.{ℤ, pos, negsuc}

abbrev pub max_body_size : ℕ
max_body_size = 1_000_000

-- A message of the server: a part of the body with `more_body`, or another.
pub data Message : Type 0 where
  http_request : List ℕ → Bool → Message
  other_message : Message

-- A response of the middleware's own (status, type, message), or the application's.
pub data Limited (R : Type 0) : Type 0 where
  refuses : ℕ → String → String → Limited R
  answers : R → Limited R

abbrev pub too_large : {R : Type 0} → Limited R
too_large = refuses 413 "request_too_large" "Request body too large. Max size is 1000000 bytes."

-- The two variables of the closure.
pub record Limiter : Type 0 where
  pub bytes_received : ℕ
  pub body_too_large : Bool

-- `_limited_receive`, from the message of `original_receive`.
unfoldable pub limited_receive : Message → Limiter → Message × Limiter
limited_receive other_message l = (other_message, l)
limited_receive (http_request body more_body) l =
    let received = l.bytes_received + length body in
    if ltb max_body_size received
    then (http_request [] false, record { bytes_received = received; body_too_large = true })
    else (
      http_request body more_body,
      record { bytes_received = received; body_too_large = l.body_too_large },
    )

-- The messages that the application receives.
unfoldable pub receive_all : List Message → Limiter → List Message × Limiter
receive_all [] l = ([], l)
receive_all (m ∷ messages) l =
    let (m', l') = limited_receive m l in
    let (messages', l'') = receive_all messages l' in (m' ∷ messages', l'')

abbrev pub fresh_limiter : Limiter
fresh_limiter = record { bytes_received = 0; body_too_large = false }

abbrev pub refuse_size : {R : Type 0} → Option ℤ → Option (Limited R)
refuse_size none = some (refuses 400 "request_too_large" "Invalid Content-Length")
refuse_size (some (negsuc n)) = some (refuses 400 "invalid_request" "Invalid Content-Length")
refuse_size (some (pos n)) = if ltb max_body_size n then some too_large else none

-- The test of `Content-Length`: the response that ends the request, if any.
unfoldable pub refuse_length :
    {R : Type 0} → (String → Option ℤ) → Option String → Option (Limited R)
refuse_length int_of none = none
refuse_length int_of (some content_length) = refuse_size (int_of content_length)

abbrev pub pass_on : {R : Type 0} → (List Message → R) → List Message × Limiter → Limited R
pass_on call_next (messages, l) =
    let response = call_next messages in if l.body_too_large then too_large else answers response

-- The last argument is the messages that the application reads.
unfoldable pub limit_request_body_size :
    {R : Type 0}
    → (String → Option ℤ)
    → (List Message → R)
    → Option String
    → List Message
    → Limited R
limit_request_body_size int_of call_next content_length read =
    elim (refuse_length int_of content_length) [
      | some refusal ↦ refusal
      | none ↦ pass_on call_next (receive_all read fresh_limiter)
    ]
