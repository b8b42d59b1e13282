-- ===== src/Gateway.antt =====
-- The gateway, gateway/app.py, and the script that calls it.
pub mod Command
pub mod Signature
pub mod Project
pub mod Webhook
pub mod Trigger
pub mod Script
pub mod Commits
