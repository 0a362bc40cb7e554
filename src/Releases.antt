-- ===== src/Releases.antt =====
-- internal/controller/status.go and registry.go: the release history of an app and the images that
-- leave it.
pub mod Sizes
pub mod History
pub mod Runs
pub mod Images
pub mod Prune
pub mod Unused
mod Tests
