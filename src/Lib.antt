-- ===== src/Lib.antt =====
-- Verification of TaoGateway, the HTTP gateway to subnets of Bittensor, in gateway/ of this repository.
--
-- A request is authenticated (gateway/middleware/auth.py), counted against the limits of its subnet
-- (gateway/middleware/rate_limit.py), sent to a miner (gateway/routing/selector.py) that is chosen
-- from the last metagraph (gateway/routing/metagraph_sync.py) by its incentive and its quality score
-- (gateway/routing/scorer.py), by the adapter of its subnet (gateway/subnets/base.py), and answered;
-- an exception becomes a response in gateway/middleware/error_handler.py. The endpoints of
-- gateway/api/ put these together, and leave a record of usage (gateway/middleware/usage.py), from
-- which a task makes daily summaries and the service quotas. The endpoints for accounts have a limit
-- of their own by address (gateway/core/rate_limit.py and gateway/api/auth.py). Redis holds the
-- counters and the cached verdicts on keys, through the one client of gateway/core/redis.py.
--
-- - Base: shared names, lists, dictionaries, integers, texts, and a stable sort.
-- - Errors: gateway/core/exceptions.py.
-- - RedisClient: gateway/core/redis.py (`get_redis`, `_close_client`, `try_get_redis`).
-- - RateLimit: gateway/middleware/rate_limit.py and scripts/rate_limit.lua. Limits has the table,
--   Store the commands of Redis, Script the Lua script, Restrictive `_compute_most_restrictive`,
--   Check `check_rate_limit` and `enforce_rate_limit`.
-- - AuthLimit: Fallback is `_FallbackStore` and Check `check_rate_limit` of gateway/core/rate_limit.py;
--   ClientIp and Guard are `_rate_limit_auth` of gateway/api/auth.py.
-- - Routing: Scorer, Metagraph and Selector are the files of gateway/routing, Float the arithmetic.
-- - ErrorHandler: gateway/middleware/error_handler.py.
-- - Adapter: `execute` and `_stream_generator` of gateway/subnets/base.py; Search is
--   gateway/subnets/sn22_search.py, Detection sn32_detect.py, Text sn1_text.py, and Image
--   sn19_image.py and sn62_code.py.
-- - Sessions: the refresh tokens of gateway/services/auth_service.py; Accounts has its accounts and
--   JWTs, with the endpoints of gateway/api/auth.py.
-- - ScoreFlush: gateway/tasks/score_flush.py.
-- - Registry: gateway/subnets/registry.py and gateway/subnets/factory.py; Models is gateway/api/models.py.
-- - Endpoints: gateway/api/_subnet_handler.py and the endpoints over it; Stream is `_handle_stream` of
--   gateway/api/chat.py.
-- - Usage: gateway/middleware/usage.py; Aggregation is gateway/tasks/usage_aggregation.py, and Quota
--   and Summaries are the functions of gateway/services/usage_service.py; DebugLogs is
--   gateway/tasks/debug_cleanup.py.
-- - App: gateway/main.py, BodyLimit the middleware and Lifespan startup and shutdown; SecurityHeaders
--   is gateway/middleware/security_headers.py.
-- - Config: the validator of gateway/core/config.py.
-- - Admin: gateway/services/admin_service.py and gateway/api/admin.py; Metrics and Developers are the
--   service's, Metagraph and Miners the endpoints'. Dashboard is gateway/api/dashboard.py.
-- - Redaction: gateway/core/logging.py.
-- - Health: gateway/api/health.py.
-- - ApiKeys: gateway/services/api_key_service.py; Auth is `get_current_api_key`, Listing has
--   `get_current_org_id` and `require_admin`, of gateway/middleware/auth.py,
--   and Endpoints is gateway/api/api_keys.py.
--
-- A method is a function from its arguments and the state to its result and the next state; what it
-- meets outside (the clock, whether a connection or a command succeeds, drawn values) is an argument.
-- Redis, the floats, `random.choices`, `ipaddress`, the hashes, the parser of identifiers, the
-- percentiles of the database and the calendar are parameters with the laws that the code relies on,
-- and the tests instantiate each of them. Times are whole microseconds, except in seconds where the
-- code counts them so. Where tasks interleave, the steps between two awaits are separate (`enter`
-- and `connect_locked` of RedisClient, the steps of Routing/Selector/Cache and those of creates at
-- once in ApiKeys/Cap); elsewhere a call of a service is one transaction, and calls follow each other.
-- Nothing needs fuel but the printing of a number, whose fuel is the number itself, above the count of
-- its digits.
--
-- Not modelled: the output of the log; the bounds of the settings' fields; the declarations of tables
-- and the validators of the schemas; NaN and the rounding of floats beyond its monotony; the expiry of
-- a key of Redis between two commands, except for the counters of RateLimit/Script/Reach.
pub mod Base
pub mod Config
pub mod Accounts
pub mod Admin
pub mod Errors
pub mod RedisClient
pub mod RateLimit
pub mod AuthLimit
pub mod Routing
pub mod ErrorHandler
pub mod ApiKeys
pub mod Adapter
pub mod ScoreFlush
pub mod Sessions
pub mod Usage
pub mod Registry
pub mod Endpoints
pub mod App
pub mod Redaction
pub mod Health
pub mod Dashboard
