-- ===== src/Workflow/System/Approval.antt =====
-- src/workflows/pr_autofix.py: the steps of `request_push_changes`.
use agentic_temporal_wf.Workflow.System.{
  Signal, decision, signal, update, resume, HandlerInput, System, on_signal, on_handler, step,
  react, is_over, apply_handler, stay,
}
use agentic_temporal_wf.Workflow.Keys.{HexDigest, push_operation_key}
use agentic_temporal_wf.Workflow.{decide, record_decision, store_decision, Workflow}
use agentic_temporal_wf.Workflow.Request.{
  Handler, awaiting_decision, begin_request, check_decision, open_operation, act_on_decision,
  pop_approval,
}
use agentic_temporal_wf.Base.Json.{Json, string, boolean}
use agentic_temporal_wf.Models.{ApprovalState, pending_approval, OperationRequest}
use agentic_temporal_wf.Base.{
  ℕ, Bool, false, none, some, [], ◌∷◌, ◌≡◌, refl, returns, nat_eq, text_eq,
}
use agentic_temporal_wf.Base.Text.{Text, codes}
use agentic_temporal_wf.Base.Dict.{Dict, lookup, insert}

-- The payload that the gateway sends.
unfoldable pub decision_payload : Text → Bool → Text → Dict Text Json
decision_payload key allowed reason =
    (codes "approval_id", string key)
    ∷ (codes "allowed", boolean allowed)
    ∷ (codes "reason", string reason)
    ∷ []

-- The approval after that payload.
abbrev pub decided_approval : Text → Bool → Text → ApprovalState
decided_approval key allowed reason = record {
  approval_id = key;
  pending = false;
  allowed = allowed;
  reason = string reason;
}

decide-payload :
    (key : Text) (allowed : Bool) (reason : Text)
    → decide (decision_payload key allowed reason) (pending_approval key)
      ≡ decided_approval key allowed reason
unfolding decide decision_payload pending_approval lookup text_eq
decide-payload key allowed reason = refl

payload-key :
    (key : Text) (allowed : Bool) (reason : Text)
    → lookup (codes "approval_id") (decision_payload key allowed reason) ≡ some (string key)
unfolding decision_payload lookup text_eq
payload-key key allowed reason = refl

-- The decision reaches the approval of its key.
pub on_signal-decision :
    (key : Text) (allowed : Bool) (reason : Text) (w : Workflow)
    → lookup key w.approvals ≡ some (pending_approval key)
    → on_signal (decision (decision_payload key allowed reason)) w
      ≡ record w { approvals = insert key (decided_approval key allowed reason) w.approvals }
unfolding on_signal
on_signal-decision key allowed reason w h =
    rw (payload-key key allowed reason, record_decision)
      (rw (h, store_decision) (rw (decide-payload key allowed reason)))

pub check_decision-waits :
    (id key : Text) (request : OperationRequest) (w : Workflow)
    → lookup key w.approvals ≡ some (pending_approval key)
    → check_decision id key request w ≡ stay (awaiting_decision key request) w
unfolding check_decision pending_approval
check_decision-waits id key request w h = rw (h, check_decision)

pub check_decision-decides :
    (id key : Text) (request : OperationRequest) (w : Workflow) (allowed : Bool) (reason : Text)
    → lookup key w.approvals ≡ some (decided_approval key allowed reason)
    → check_decision id key request w
      ≡ act_on_decision id key request
          (pop_approval key w)
          (returns (record { allowed = allowed; reason = reason }))
unfolding check_decision
check_decision-decides id key request w allowed reason h = rw (h, check_decision)

module _ (h : HexDigest) (id : Text) where
  pub step-resume :
      (n : ℕ) (i : HandlerInput) (s : System) (hd : Handler)
      → is_over s.main ≡ false
      → lookup n s.handlers ≡ some hd
      → step h id s (resume n i) ≡ apply_handler n s (on_handler id i hd s.workflow)
  unfolding step
  step-resume n i s hd going e = rw going (rw (e, react))

  pub step-update :
      (n : ℕ) (request : OperationRequest) (s : System)
      → is_over s.main ≡ false
      → lookup n s.handlers ≡ none
      → step h id s (update n request) ≡ apply_handler n s (begin_request h id request s.workflow)
  unfolding step
  step-update n request s going e = rw going (rw (e, react))

  pub begin_request-new :
      (request : OperationRequest) (w : Workflow)
      → lookup (push_operation_key h id w.state.iterations) w.state.operations ≡ none
      → begin_request h id request w
        ≡ open_operation (push_operation_key h id w.state.iterations) request w
  unfolding begin_request
  begin_request-new request w e = rw (e, begin_request)

  pub step-signal :
      (sig : Signal) (s : System)
      → is_over s.main ≡ false
      → step h id s (signal sig) ≡ record s { workflow = on_signal sig s.workflow }
  unfolding step
  step-signal sig s going = rw going
