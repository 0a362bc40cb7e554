-- ===== src/ConfigVars.antt =====
-- pkg/configvars/configvars.go: the config vars of an app.
pub mod Secrets
pub mod Dotenv
pub mod Changes
mod Tests
