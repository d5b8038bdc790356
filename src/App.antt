-- ===== src/App.antt =====
-- gateway/main.py: the limit on the size of a body, and startup and shutdown; and the headers of
-- gateway/middleware/security_headers.py.
pub mod BodyLimit
pub mod Lifespan
pub mod SecurityHeaders
mod Tests
