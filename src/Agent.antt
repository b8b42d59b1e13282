-- ===== src/Agent.antt =====
-- src/agents and src/observability: what the agent's process is configured with.
pub mod Options
pub mod Otel
