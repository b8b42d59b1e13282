-- ===== src/Workflow/Request.antt =====
-- `request_push_changes`, cut at its `await`s. Each function below runs from one `await` to the
-- next; the arguments of a `Handler` constructor are the local variables that are still alive.
use agentic_temporal_wf.Base.{Bool, true, false, Option, none, some, [], ◌∷◌}
use agentic_temporal_wf.Base.{if◌then◌else◌, get_or, text_eq}
use agentic_temporal_wf.Base.{Outcome, returns, raises, Exception}
use agentic_temporal_wf.Base.{key_error}
use agentic_temporal_wf.Base.Text.{Text, codes}
use agentic_temporal_wf.Base.Dict.{lookup, insert, erase}
use agentic_temporal_wf.Models.{
  ApprovalDecision, CommitResult, OperationRequest, OperationResult, OperationStatus, denied,
  failed, pushed, to_decision, decided, pending_approval,
}
use agentic_temporal_wf.Workflow.{Workflow}
use agentic_temporal_wf.Workflow.Command.{Effect, notify_human_for_approval, push_changes}
use agentic_temporal_wf.Workflow.Keys.{HexDigest, push_operation_key}

pub data Handler : Type 0 where
  -- `wait_condition(operations[key].status != "pending")`
  awaiting_prior : Text → Handler
  -- `execute_activity(notify_human_for_approval)`
  notifying : Text → OperationRequest → Handler
  -- `wait_condition(_approvals[approval_id].decided)`
  awaiting_decision : Text → OperationRequest → Handler
  -- `execute_activity(push_changes)`
  pushing : Text → OperationRequest → Handler
  answered : OperationResult → Handler
  aborted : Exception → Handler

abbrev pub is_pending : OperationStatus → Bool
is_pending OperationStatus.pending = true
is_pending _ = false

-- `self._state.operations[key] = result`
abbrev pub set_operation : Text → OperationResult → Workflow → Workflow
set_operation key result w = record w {
  state = record w.state { operations = insert key result w.state.operations };
}

-- `self._approvals.pop(approval_id)`
abbrev pub pop_approval : Text → Workflow → Workflow
pop_approval key w = record w { approvals = erase key w.approvals }

abbrev pub result_of : Text → OperationStatus → Option Bool → Option Text → Text → OperationResult
result_of key status decision external reason = record {
  operation_key = key;
  status = status;
  approval_id = some key;
  approval_decision = decision;
  external_result_id = external;
  reason = reason;
}

-- The branch taken where the key has no operation yet.
unfoldable pub open_operation : Text → OperationRequest → Workflow → Effect Handler
unfolding pending_approval
open_operation key request w = record {
  workflow =
      let w' = set_operation key (result_of key OperationStatus.pending none none []) w in
      record w' { approvals = insert key (pending_approval key) w.approvals };
  next = notifying key request;
  commands =
      notify_human_for_approval w.state.pr.owner w.state.pr.repo w.state.pr.number (record {
        approval_id = key;
        tool_name = codes "push_changes";
        tool_input = request;
        iteration = w.state.iterations;
      })
      ∷ [];
}

-- From the start to the first `await`.
unfoldable pub begin_request : HexDigest → Text → OperationRequest → Workflow → Effect Handler
unfolding open_operation
begin_request h workflow_id request w =
    let key = push_operation_key h workflow_id w.state.iterations in
    elim (lookup key w.state.operations) [
      | none ↦ open_operation key request w
      | some prior ↦ record {
        workflow = w;
        next = if is_pending prior.status then awaiting_prior key else answered prior;
        commands = [];
      }
    ]

-- The condition on the prior operation is evaluated, and its result returned if it is settled.
unfoldable pub check_prior : Text → Workflow → Handler
check_prior key w = elim (lookup key w.state.operations) [
  | none ↦ aborted key_error
  | some prior ↦ if is_pending prior.status then awaiting_prior key else answered prior
]

-- After the decision: the result is recorded, or the push is scheduled.
unfoldable pub act_on_decision :
    Text → Text → OperationRequest → Workflow → Outcome ApprovalDecision → Effect Handler
act_on_decision workflow_id key request w (raises e) = record {
  workflow = w;
  next = aborted e;
  commands = [];
}
act_on_decision workflow_id key request w (returns decision) =
    let result = result_of key denied (some false) none decision.reason in
    if decision.allowed
    then record {
      workflow = w;
      next = pushing key request;
      commands = push_changes w.state.pr workflow_id request.commit_message key ∷ [];
    }
    else record { workflow = set_operation key result w; next = answered result; commands = [] }

-- The condition on the approval is evaluated; from there to the next `await` if it holds.
unfoldable pub check_decision : Text → Text → OperationRequest → Workflow → Effect Handler
unfolding act_on_decision decided to_decision
check_decision workflow_id key request w = elim (lookup key w.approvals) [
  | none ↦ record { workflow = w; next = aborted key_error; commands = [] }
  | some a ↦
      if decided a
      then act_on_decision workflow_id key request (pop_approval key w) (to_decision a)
      else record { workflow = w; next = awaiting_decision key request; commands = [] }
]

-- The `except asyncio.TimeoutError` branch.
unfoldable pub decision_timeout : Text → Workflow → Effect Handler
decision_timeout key w =
    let result = result_of key denied (some false) none (codes "approval timed out") in
    record {
      workflow = pop_approval key (set_operation key result w);
      next = answered result;
      commands = [];
    }

-- From the result of `push_changes` to the end.
unfoldable pub finish_push : Text → CommitResult → Workflow → Effect Handler
finish_push key commit w =
    let status = if commit.pushed then pushed else failed in
    let result = result_of key status (some true) commit.commit_sha (get_or commit.reason []) in
    record { workflow = set_operation key result w; next = answered result; commands = [] }
