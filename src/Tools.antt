-- ===== src/Tools.antt =====
-- src/tools: the tools that the agent has for the working copy.
pub mod Disk
pub mod Repo
pub mod Server
