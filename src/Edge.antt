-- ===== src/Edge.antt =====
-- pkg/edge/edge.go: signed tokens, the cookie of an app host, and one-time codes.
pub mod Tokens
pub mod Codes
pub mod Cookies
pub mod Redeem
mod Tests
