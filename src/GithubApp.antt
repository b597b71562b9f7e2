-- ===== src/GithubApp.antt =====
-- The GitHub App: src/github-app/github-app.service.ts.
pub mod Types
pub mod Service
pub mod Examples
