-- ===== src/Rollout.antt =====
-- The deployment of a build: src/deployment/deployment.service.ts.
pub mod Types
pub mod Network
pub mod Routing
pub mod Tasks
pub mod Service
pub mod Keeps
pub mod Examples
