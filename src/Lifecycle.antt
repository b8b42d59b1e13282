-- ===== src/Lifecycle.antt =====
-- src/activities/lifecycle.py: the activities that talk to GitHub and to the trusted workspace.
pub mod Status
pub mod Git
pub mod Push
pub mod Prepare
pub mod Approval
