-- ===== src/Domain.antt =====
-- internal/domain: the values and errors that every other part shares.
pub mod Errors
pub mod Identifier
pub mod Audit
pub mod Approval
pub mod Json
pub mod Search
pub mod Access
pub mod Collect
mod Tests
