-- ===== src/Sandbox.antt =====
-- src/activities/sandbox.py: the containers in which the agent runs. The Docker daemon and the
-- broker's endpoint are arguments.
pub mod Provision
pub mod Teardown
pub mod Snapshot
pub mod Exec
pub mod Orphans
