-- ===== src/BuildSpec.antt =====
-- The generators of the build specification and the Dockerfile: src/codebuild.
pub mod Types
pub mod Commands
pub mod Dockerfile
pub mod Generator
pub mod Examples
