-- ===== src/Sizes.antt =====
-- The catalog of instance sizes, pkg/sizes/sizes.go.
pub mod Quantities
pub mod Catalog
pub mod Resources
pub mod Valid
pub mod Changes
pub mod Resolve
mod Tests
