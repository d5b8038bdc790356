-- ===== src/ErrorHandler/Gateway.antt =====
-- What the response to an exception of the gateway shows.
use tao_gateway.Base.{
  ℕ, ◌<◌, ◌≡◌, refl, ◌⊎◌, inl, inr, String, false, Option, none, some, arith, str, string_eq,
}
use tao_gateway.Base.Dict.{lookup}
use tao_gateway.Errors.{
  GatewayError, gateway_error, miner_timeout_error, miner_invalid_response_error,
  subnet_unavailable_error, rate_limit_exceeded_error, authentication_error, authorization_error,
  message, status_code, error_type, miner_uid, reason, subnet, retry_after,
}
use tao_gateway.RateLimit.Limits.{RateLimitResult, to_headers}
use tao_gateway.ErrorHandler.{text, number, gateway_exception_handler}

-- The response has the status, the type, the code and the message of the exception, and the uid of a
-- miner only with the status 502 or 504.
gateway_exception_handler_body :
    (rate_result : Option RateLimitResult) (exc : GatewayError)
    → let r = gateway_exception_handler rate_result exc in
      (r.status ≡ status_code exc)
      × (lookup "type" r.body ≡ some (text (error_type exc)))
      × (lookup "code" r.body ≡ some (number (status_code exc)))
      × (lookup "message" r.body ≡ some (text (message exc)))
      × ((lookup "miner_uid" r.body ≡ none)
          ⊎ (((r.status ≡ 502) ⊎ (r.status ≡ 504))
              × ((uid : String) × (miner_uid exc ≡ some uid)
                  × (lookup "miner_uid" r.body ≡ some (text uid)))))
unfolding gateway_exception_handler status_code error_type message miner_uid retry_after subnet
    reason
gateway_exception_handler_body rate_result (gateway_error m code t) = ground arith
gateway_exception_handler_body rate_result (miner_timeout_error uid s) =
    (refl, refl, refl, refl, inr (inr refl, (uid, refl, refl)))
gateway_exception_handler_body rate_result (miner_invalid_response_error uid s) =
    (refl, refl, refl, refl, inr (inl refl, (uid, refl, refl)))
gateway_exception_handler_body rate_result (subnet_unavailable_error s r) =
    (refl, refl, refl, refl, inl refl)
gateway_exception_handler_body rate_result (rate_limit_exceeded_error m none n) = ground arith
gateway_exception_handler_body rate_result (rate_limit_exceeded_error m (some s) n) = ground arith
gateway_exception_handler_body rate_result (authentication_error m) =
    (refl, refl, refl, refl, inl refl)
gateway_exception_handler_body rate_result (authorization_error m) =
    (refl, refl, refl, refl, inl refl)

-- An exceeded rate limit with a positive delay is answered by 429, with the delay in the body and in
-- the header Retry-After, unless a denied result of the request overrides the header with its own.
gateway_exception_handler_retry :
    (m : String) (s : Option String) (n : ℕ) (result : RateLimitResult)
    → 0 < n
    → result.allowed ≡ false
    → let r = gateway_exception_handler none (rate_limit_exceeded_error m s n) in
      let q = gateway_exception_handler (some result) (rate_limit_exceeded_error m s n) in
      (r.status ≡ 429)
      × (lookup "retry_after" r.body ≡ some (number n))
      × (lookup "Retry-After" r.headers ≡ some (str n))
      × (lookup "Retry-After" q.headers ≡ some (str result.retry_after))
unfolding gateway_exception_handler status_code miner_uid retry_after subnet reason to_headers
gateway_exception_handler_retry m none n result p d = ground arith
gateway_exception_handler_retry m (some s) n result p d = ground arith
