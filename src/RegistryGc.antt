-- ===== src/RegistryGc.antt =====
-- internal/controller/registrygc.go: the garbage collection of the in-cluster registry.
pub mod Collector
pub mod Ends
pub mod Templates
pub mod Modes
pub mod Trigger
mod Tests
