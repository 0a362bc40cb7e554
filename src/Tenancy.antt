-- ===== src/Tenancy.antt =====
-- pkg/tenancy/tenancy.go: which workspace answers at the host of a request.
pub mod Hosts
pub mod Resolver
pub mod Caches
pub mod Claims
pub mod Slugs
pub mod SlugCaches
mod Tests
