-- ===== src/Workflow/Command.antt =====
-- The activities that the workflow schedules, with their arguments, and what a stretch of a
-- coroutine between two `await`s does.
use agentic_temporal_wf.Base.{ℕ, List}
use agentic_temporal_wf.Base.Text.{Text}
use agentic_temporal_wf.Models.{
  PrRef, WorkflowState, GitHubEvent, FixPlan, SandboxHandle, ApprovalRequest,
}
use agentic_temporal_wf.Workflow.{Workflow}

pub data Command : Type 0 where
  prepare_workdir : PrRef → Command
  provision_sandbox : PrRef → Command
  run_agent_iteration : WorkflowState → List GitHubEvent → Command
  post_status : WorkflowState → FixPlan → Command
  teardown_sandbox : SandboxHandle → Command
  cleanup_workdir : PrRef → Command
  notify_human_for_approval : Text → Text → ℕ → ApprovalRequest → Command
  push_changes : PrRef → Text → Text → Text → Command

-- The object afterwards, where the coroutine waits next, and the activities scheduled on the way.
pub record Effect (P : Type 0) : Type 0 where
  pub workflow : Workflow
  pub next : P
  pub commands : List Command
