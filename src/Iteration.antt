-- ===== src/Iteration.antt =====
-- src/activities/agent_iteration.py: the activity that runs the agent in the sandbox.
pub mod Demux
pub mod Activity
pub mod Prompt
