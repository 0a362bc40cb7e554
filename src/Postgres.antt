-- ===== src/Postgres.antt =====
-- pkg/store/postgres.go: the control-plane store over SQL tables.
pub mod Tables
pub mod Teams
pub mod Grants
pub mod Refine
mod Tests
