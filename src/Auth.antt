-- ===== src/Auth.antt =====
-- src/auth: sign-in by GitHub, rotation of refresh tokens, log-out; src/common/guard/auth.guard.ts.
pub mod Types
pub mod Service
pub mod Oauth
pub mod Guard
pub mod Controller
mod Examples
