-- ===== src/App/Tests.antt =====
-- A chunked body, a startup and a shutdown.
use tao_gateway.Base.{
  ℕ, ◌≤◌, ◌<◌, ◌≡◌, refl, ◌⊎◌, String, true, false, Option, none, some, List, [], ◌∷◌, ◌++◌,
}
use tao_gateway.Base.Int.{ℤ, pos}
use tao_gateway.App.BodyLimit.{
  Message, http_request, answers, too_large, fresh_limiter, receive_all, refuse_length,
  limit_request_body_size,
}
use tao_gateway.App.BodyLimit.Bound.{bytes_of, limit_request_body_size_lem}
use tao_gateway.App.Lifespan.{
  Startup, startup, Step, Ending, returns, raises, stop_usage_aggregation, is_cancelled,
  shutdown_steps, shutdown,
}
use tao_gateway.App.Lifespan.Shutdown.{IsShut, shutdown-IsShut}
use tao_gateway.App.SecurityHeaders.{
  Sent, response_start, other_sent, api_csp, common_headers, hsts_header, send_with_headers,
  security_headers,
}

abbrev int_of : String → Option ℤ
int_of s = some (pos 7)

abbrev parts : List Message
parts = http_request (1 ∷ 2 ∷ []) true ∷ http_request (3 ∷ []) false ∷ []

abbrev size_seen : List Message → ℕ
size_seen messages = bytes_of messages

accepted : refuse_length {R = ℕ} int_of (some "7") ≡ none
unfolding refuse_length
accepted = refl

limit_request_body_size_lem_example :
    let response = limit_request_body_size int_of size_seen (some "7") parts in
    (bytes_of (receive_all parts fresh_limiter).0 ≤ 1_000_000)
    × (((bytes_of parts ≤ 1_000_000) × (response ≡ answers (size_seen parts)))
        ⊎ ((1_000_000 < bytes_of parts) × (response ≡ too_large)))
limit_request_body_size_lem_example =
    limit_request_body_size_lem int_of size_seen (some "7") parts accepted

abbrev no_metagraph : Startup
no_metagraph = record {
  db_ok = true;
  redis_ok = true;
  handles_ok = true;
  metagraphs = true ∷ false ∷ [];
  scorer_ok = true;
}

startup_fails : (startup true no_metagraph).1 ≡ false
unfolding startup
startup_fails = refl

-- The aggregation task fails to stop.
abbrev endings : Step → Ending
endings stop_usage_aggregation = raises
endings step = returns

endings_uncancelled : (step : Step) → is_cancelled (endings step) ≡ false
endings_uncancelled stop_usage_aggregation = refl
endings_uncancelled step = refl

abbrev all_ok : Startup
all_ok = record no_metagraph { metagraphs = true ∷ true ∷ [] }

shutdown-IsShut_example :
    let (s, made) = shutdown true endings (startup true all_ok).0 in
    (made ≡ shutdown_steps true) × IsShut endings s
shutdown-IsShut_example = shutdown-IsShut true all_ok endings endings_uncancelled

abbrev sent : List (Sent ℕ)
sent = response_start (some (("x-request-id", "7") ∷ [])) 200 ∷ other_sent 1 ∷ []

api_headers : security_headers true false "/v1/models" sent ≡ (
    response_start
      (some ((("x-request-id", "7") ∷ common_headers) ++ (api_csp ∷ hsts_header ∷ [])))
      200
    ∷ other_sent 1
    ∷ [])
unfolding security_headers send_with_headers
api_headers = refl
