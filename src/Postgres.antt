-- ===== src/Postgres.antt =====
-- internal/postgres: the broker's tables, and the transactions on them.
pub mod Tables
pub mod Devices
pub mod Sessions
pub mod Upkeep
pub mod Lifecycle
mod Tests
