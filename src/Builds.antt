-- ===== src/Builds.antt =====
-- Builds on AWS: src/codebuild.
pub mod Types
pub mod Registry
pub mod LogGroups
pub mod Rules
pub mod Runs
pub mod Service
pub mod Examples
