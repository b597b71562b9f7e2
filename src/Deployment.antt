-- ===== src/Deployment.antt =====
-- Deployments: src/deployment.
pub mod Types
pub mod Rules
pub mod Tracker
pub mod Details
pub mod Events
pub mod Cleanup
pub mod Health
pub mod Examples
