-- ===== src/Project.antt =====
-- The naming rules of projects and workspaces, pkg/project/project.go.
pub mod Names
pub mod Namespaces
mod Tests
