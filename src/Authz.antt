-- ===== src/Authz.antt =====
-- pkg/authz: what an identity may do.
pub mod Table
pub mod Roles
pub mod Snapshot
pub mod Resolver
pub mod Order
pub mod Grants
pub mod Teams
pub mod Access
pub mod Can
pub mod Suspension
pub mod Cache
mod Tests
