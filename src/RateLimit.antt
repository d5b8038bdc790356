-- ===== src/RateLimit.antt =====
-- gateway/middleware/rate_limit.py with scripts/rate_limit.lua: the limits of a subnet, the script
-- that Redis runs, and the check of a request against three windows.
pub mod Limits
pub mod Restrictive
pub mod Store
pub mod Script
pub mod Check
mod Tests
