-- ===== src/Auth.antt =====
-- internal/auth: logins and sessions above the store.
pub mod Service
mod Tests
