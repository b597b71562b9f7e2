-- ===== src/Cloudwatch.antt =====
-- Logs from CloudWatch: src/logs/services/cloudwatch and src/logs/services/log-storage.
pub mod Types
pub mod Storage
pub mod Message
pub mod Service
pub mod Examples
