-- ===== src/Projects.antt =====
-- Projects: src/project/project.service.ts.
pub mod Types
pub mod Service
pub mod Examples
