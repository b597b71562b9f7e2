-- ===== src/Webhook.antt =====
-- The webhooks of the GitHub app: src/github-app.
pub mod Types
pub mod Events
pub mod Controller
pub mod Examples
