-- ===== src/LogBuffer.antt =====
-- src/logs/services/log-buffer: the ring buffer of recent logs, and the service that keeps one for
-- each execution.
pub mod Ring
pub mod Service
mod Examples
