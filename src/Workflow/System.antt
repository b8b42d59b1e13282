-- ===== src/Workflow/System.antt =====
-- The workflow as a whole: the object, the coroutine `run`, the update handlers in flight, and the
-- activities scheduled so far. One input is one thing that the server delivers; any order of
-- inputs is an interleaving. An input that nothing waits for changes nothing.
pub mod Induction
pub mod Authorized
pub mod Bounds
pub mod Posting
pub mod Resources
pub mod Approval
pub mod Publication
pub mod Repeat
use agentic_temporal_wf.Base.{ℕ, Bool, true, false, Option, none, some, List, [], ◌∷◌, ◌++◌}
use agentic_temporal_wf.Base.{if◌then◌else◌, is_some, nat_eq}
use agentic_temporal_wf.Base.{Outcome, returns, raises, timeout_error, activity_error}
use agentic_temporal_wf.Base.Text.{Text}
use agentic_temporal_wf.Base.Dict.{Dict, lookup, insert}
use agentic_temporal_wf.Base.Json.{Json}
use agentic_temporal_wf.Lifecycle.Status.{Reply, post_status}
use agentic_temporal_wf.Models.{
  CommitResult, FixPlan, GitHubEvent, OperationRequest, SandboxHandle, WorkflowState,
}
use agentic_temporal_wf.Workflow.{Workflow, Init, create, on_event, close, submit_approval_decision}
use agentic_temporal_wf.Workflow.Command.{Command, Effect, prepare_workdir}
use agentic_temporal_wf.Workflow.Keys.{HexDigest}
use agentic_temporal_wf.Workflow.Request.{
  Handler, awaiting_prior, notifying, awaiting_decision, pushing, aborted, begin_request,
  check_prior, check_decision, decision_timeout, finish_push,
}
use agentic_temporal_wf.Workflow.Run.{
  Main, preparing, provisioning, idle, iterating, posting, tearing_down, cleaning, completed,
  failed, continued, raised, leave, prepared, provisioned, check_events, idle_timeout, post_plan,
  iteration_failed, posted, torn_down, cleaned,
}

pub data Signal : Type 0 where
  event : GitHubEvent → Signal
  close_run : Signal
  decision : Dict Text Json → Signal

-- What an update handler waits for: a condition is evaluated, a timer fires, an activity ends.
pub data HandlerInput : Type 0 where
  wake timeout notified notify_error push_error : HandlerInput
  push_result : CommitResult → HandlerInput

pub data MainInput : Type 0 where
  workdir_ready workdir_error sandbox_error : MainInput
  sandbox_ready : SandboxHandle → MainInput
  wake_run idle_timer : MainInput
  plan : FixPlan → MainInput
  iteration_error : Text → MainInput
  -- GitHub's replies to the comment and the check run, and the server's suggestion.
  status_posted : Reply → Reply → Bool → MainInput
  sandbox_gone teardown_error workdir_gone cleanup_error : MainInput

pub data Input : Type 0 where
  signal : Signal → Input
  update : ℕ → OperationRequest → Input
  resume : ℕ → HandlerInput → Input
  main_input : MainInput → Input

pub record System : Type 0 where
  pub workflow : Workflow
  pub main : Main
  pub handlers : Dict ℕ Handler
  pub commands : List Command

-- `run` goes as far as its first `await`.
unfoldable pub start : Init → System
unfolding create
start init = record {
  workflow = create init;
  main = preparing;
  handlers = [];
  commands = prepare_workdir (create init).state.pr ∷ [];
}

-- A signal whose handler raises fails the task of the workflow, and Temporal tries that task again:
-- nothing after it is delivered, which is a list of inputs that ends here. Where the code is
-- mended, the run goes on from the object as it was.
abbrev pub kept : Workflow → Outcome Workflow → Workflow
kept w (returns w') = w'
kept w (raises _) = w

unfoldable pub on_signal : Signal → Workflow → Workflow
unfolding on_event close submit_approval_decision
on_signal (event e) w = on_event e w
on_signal close_run w = close w
on_signal (decision payload) w = kept w (submit_approval_decision payload w)

abbrev pub stay : {P : Type 0} → P → Workflow → Effect P
stay p w = record { workflow = w; next = p; commands = [] }

unfoldable pub on_handler : Text → HandlerInput → Handler → Workflow → Effect Handler
unfolding check_prior check_decision decision_timeout finish_push
on_handler id wake (awaiting_prior key) w = stay (check_prior key w) w
on_handler id timeout (awaiting_prior key) w = stay (aborted timeout_error) w
on_handler id notified (notifying key request) w = check_decision id key request w
on_handler id notify_error (notifying key request) w = stay (aborted activity_error) w
on_handler id wake (awaiting_decision key request) w = check_decision id key request w
on_handler id timeout (awaiting_decision key request) w = decision_timeout key w
on_handler id (push_result commit) (pushing key request) w = finish_push key commit w
on_handler id push_error (pushing key request) w = stay (aborted activity_error) w
on_handler id _ handler w = stay handler w

abbrev after_posting : Bool → Workflow → Outcome WorkflowState → Effect Main
after_posting continue_as_new w (returns s) = posted s continue_as_new w
after_posting continue_as_new w (raises e) = leave (raised activity_error) w

unfoldable pub on_main : MainInput → Main → Workflow → Effect Main
unfolding prepared provisioned check_events idle_timeout post_plan iteration_failed posted torn_down
    cleaned
on_main workdir_ready preparing w = prepared w
on_main workdir_error preparing w = stay (failed activity_error) w
on_main (sandbox_ready handle) provisioning w = provisioned handle w
on_main sandbox_error provisioning w = stay (failed activity_error) w
on_main wake_run idle w = check_events w
on_main idle_timer idle w = idle_timeout w
on_main (plan p) iterating w = post_plan p w
on_main (iteration_error reason) iterating w = iteration_failed reason w
on_main (status_posted comment check continue_as_new) (posting s p) w =
    after_posting continue_as_new w (post_status comment check s)
on_main sandbox_gone (tearing_down ending) w = torn_down ending w
on_main teardown_error (tearing_down ending) w = stay (failed activity_error) w
on_main workdir_gone (cleaning ending) w = stay (cleaned ending w) w
on_main cleanup_error (cleaning ending) w = stay (failed activity_error) w
on_main _ main w = stay main w

-- A workflow that has ended, or continued as new, receives nothing more.
abbrev pub is_over : Main → Bool
is_over (completed _) = true
is_over (failed _) = true
is_over (continued _) = true
is_over _ = false

abbrev pub apply_handler : ℕ → System → Effect Handler → System
apply_handler n s e = record s {
  workflow = e.workflow;
  handlers = insert n e.next s.handlers;
  commands = s.commands ++ e.commands;
}

abbrev pub apply_main : System → Effect Main → System
apply_main s e = record s {
  workflow = e.workflow;
  main = e.next;
  commands = s.commands ++ e.commands;
}

module _ (h : HexDigest) (workflow_id : Text) where
  unfoldable pub react : Input → System → System
  unfolding on_signal on_handler on_main begin_request
  react (signal sig) s = record s { workflow = on_signal sig s.workflow }
  react (update n request) s = elim (lookup n s.handlers) [
    | some _ ↦ s
    | none ↦ apply_handler n s (begin_request h workflow_id request s.workflow)
  ]
  react (resume n i) s = elim (lookup n s.handlers) [
    | none ↦ s
    | some handler ↦ apply_handler n s (on_handler workflow_id i handler s.workflow)
  ]
  react (main_input i) s = apply_main s (on_main i s.main s.workflow)

  unfoldable pub step : System → Input → System
  unfolding react
  step s i = if is_over s.main then s else react i s

  unfoldable pub run_inputs : System → List Input → System
  unfolding step
  run_inputs s [] = s
  run_inputs s (i ∷ is) = run_inputs (step s i) is
