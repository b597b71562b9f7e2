-- ===== src/EventBridge.antt =====
-- The events of AWS that the Lambda function forwards: src/logs/eventbridge.service.ts,
-- src/logs/eventbridge.controller.ts, src/common/redis/redis.service.ts and lambda/index.ts.
pub mod Types
pub mod Dedup
pub mod Deploy
pub mod Builds
pub mod Service
pub mod Lambda
pub mod Examples
