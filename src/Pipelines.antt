-- ===== src/Pipelines.antt =====
-- Pipelines: src/pipeline/pipeline.service.ts.
pub mod Types
pub mod Service
pub mod Examples
