-- ===== src/Httpapi.antt =====
-- internal/httpapi: what stands before the handlers.
pub mod RateLimiter
mod Tests
