-- ===== src/Store/Laws.antt =====
-- Methods of the store one after the other, pkg/store/memory.go.
pub mod Teams
pub mod Codes
