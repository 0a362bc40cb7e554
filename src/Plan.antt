-- ===== src/Plan.antt =====
-- The ceilings of a workspace's plan, pkg/api/plan.go.
pub mod Usage
pub mod Check
pub mod Ceilings
pub mod Count
pub mod Total
mod Tests
