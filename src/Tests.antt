-- ===== src/Tests.antt =====
-- The theorems applied at concrete inputs.
mod Data
mod Serial
mod Hooks
mod Tools
mod Storage
mod Script
mod Cve
mod Agent
mod Workflow
mod Gateway
mod Broker
mod Activities
