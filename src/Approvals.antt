-- ===== src/Approvals.antt =====
-- internal/approvals: the search for approvals.
pub mod SearchLimiter
pub mod Candidates
pub mod Library
pub mod Catalog
pub mod Times
pub mod Cursor
pub mod Service
pub mod Discovery
pub mod Authorization
pub mod States
pub mod Search
mod Tests
