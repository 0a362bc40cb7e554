-- ===== src/Store.antt =====
-- pkg/store: the control-plane store, by its in-memory implementation.
pub mod Types
pub mod State
pub mod Workspaces
pub mod Domains
pub mod Identities
pub mod Teams
pub mod Grants
pub mod Sessions
pub mod Tokens
pub mod Valid
pub mod Calls
pub mod Dump
pub mod Laws
mod Tests
