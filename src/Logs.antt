-- ===== src/Logs.antt =====
-- The executions and their logs: src/logs/logs.service.ts.
pub mod Executions
pub mod Combined
pub mod Stale
pub mod Ecs
pub mod Gateway
pub mod Examples
