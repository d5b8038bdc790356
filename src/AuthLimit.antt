-- ===== src/AuthLimit.antt =====
-- gateway/core/rate_limit.py and `_rate_limit_auth` of gateway/api/auth.py: the limit on the
-- authentication endpoints, with its fallback in memory.
pub mod Fallback
pub mod Check
pub mod ClientIp
pub mod Guard
mod Tests
