-- ===== src/Workflow/Run.antt =====
-- `run`, cut at its `await`s.
use agentic_temporal_wf.Base.{◌+◌, Bool, true, false, none, some}
use agentic_temporal_wf.Base.{List, [], ◌∷◌, ◌++◌, if◌then◌else◌, ltb}
use agentic_temporal_wf.Base.{Exception}
use agentic_temporal_wf.Base.Text.{Text, codes, show}
use agentic_temporal_wf.Models.{FixPlan, GitHubEvent, SandboxHandle, WorkflowState, blocked_plan}
use agentic_temporal_wf.Workflow.{Workflow, max_iterations, apply_plan}
use agentic_temporal_wf.Workflow.Command.{
  Effect, run_agent_iteration, post_status, teardown_sandbox, cleanup_workdir, provision_sandbox,
}

-- How the `try` block was left: by the end of the loop, or by an exception.
pub data Ending : Type 0 where
  normal : Ending
  raised : Exception → Ending

pub data Main : Type 0 where
  preparing : Main
  provisioning : Main
  -- `wait_condition(pending_events or closed)`
  idle : Main
  iterating : Main
  -- `execute_activity(post_status)`, with the arguments as they were sent
  posting : WorkflowState → FixPlan → Main
  tearing_down : Ending → Main
  cleaning : Ending → Main
  completed : Text → Main
  failed : Exception → Main
  continued : WorkflowState → Main

abbrev pub has_events : List GitHubEvent → Bool
has_events [] = false
has_events (_ ∷ _) = true

-- The `finally` block, where `do_cleanup` is true.
unfoldable pub leave : Ending → Workflow → Effect Main
leave ending w = elim w.state.sandbox [
  | none ↦ record {
    workflow = w;
    next = cleaning ending;
    commands = cleanup_workdir w.state.pr ∷ [];
  }
  | some handle ↦ record {
    workflow = w;
    next = tearing_down ending;
    commands = teardown_sandbox handle ∷ [];
  }
]

-- The test of the `while` loop.
unfoldable pub loop_head : Workflow → Effect Main
unfolding leave
loop_head w =
    if ltb w.state.iterations max_iterations
    then record { workflow = w; next = idle; commands = [] }
    else leave normal w

-- `prepare_workdir` has ended.
unfoldable pub prepared : Workflow → Effect Main
prepared w = record {
  workflow = w;
  next = provisioning;
  commands = provision_sandbox w.state.pr ∷ [];
}

-- `provision_sandbox` has ended.
unfoldable pub provisioned : SandboxHandle → Workflow → Effect Main
unfolding loop_head
provisioned handle w = loop_head (record w { state = record w.state { sandbox = some handle } })

-- The counter goes up, the events are taken off the queue and sent to the agent.
unfoldable pub start_iteration : Workflow → Effect Main
start_iteration w =
    let s = record w.state { iterations = w.state.iterations + 1; pending_events = [] } in
    record {
      workflow = record w { state = s };
      next = iterating;
      commands = run_agent_iteration s w.state.pending_events ∷ [];
    }

-- The wait condition is evaluated; from there to the next `await` if it holds.
unfoldable pub check_events : Workflow → Effect Main
unfolding start_iteration leave
check_events w =
    if has_events w.state.pending_events
    then start_iteration w
    else if w.state.closed
    then leave normal w
    else record { workflow = w; next = idle; commands = [] }

-- The `except asyncio.TimeoutError` branch of the wait.
unfoldable pub idle_timeout : Workflow → Effect Main
unfolding leave
idle_timeout w = leave normal (record w { state = record w.state { closed = true } })

-- The plan is applied and sent to be posted.
unfoldable pub post_plan : FixPlan → Workflow → Effect Main
unfolding apply_plan
post_plan plan w =
    let s = apply_plan plan w.state in
    record {
      workflow = record w { state = s };
      next = posting s plan;
      commands = post_status s plan ∷ [];
    }

-- The `except Exception` branch: `reason` is the text of the exception.
unfoldable pub iteration_failed : Text → Workflow → Effect Main
unfolding post_plan blocked_plan
iteration_failed reason w =
    post_plan (blocked_plan (codes "Agent iteration failed.") reason)
      (record w { state = record w.state { closed = true } })

-- `self._state` becomes what `post_status` returned; then the run goes on, or continues as new.
unfoldable pub posted : WorkflowState → Bool → Workflow → Effect Main
unfolding loop_head
posted s continue_as_new w =
    if continue_as_new
    then record { workflow = record w { state = s }; next = continued s; commands = [] }
    else loop_head (record w { state = s })

-- `teardown_sandbox` has ended.
unfoldable pub torn_down : Ending → Workflow → Effect Main
torn_down ending w = record {
  workflow = w;
  next = cleaning ending;
  commands = cleanup_workdir w.state.pr ∷ [];
}

-- `cleanup_workdir` has ended: the result is returned, or the exception goes on.
unfoldable pub cleaned : Ending → Workflow → Main
cleaned normal w = completed (codes "done after " ++ show w.state.iterations ++ codes " iterations")
cleaned (raised e) w = failed e
