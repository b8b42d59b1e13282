-- ===== src/Workflow/System/Publication.antt =====
-- src/workflows/pr_autofix.py: one request for publication, from the update to its answer.
use agentic_temporal_wf.Workflow.System.Approval.{
  decision_payload, decided_approval, on_signal-decision, check_decision-waits,
  check_decision-decides, step-resume, step-update, step-signal, begin_request-new,
}
use agentic_temporal_wf.Workflow.System.{
  decision, wake, notified, push_result, Input, signal, update, resume, System, on_handler, step,
  is_over, run_inputs, apply_handler, stay,
}
use agentic_temporal_wf.Workflow.Command.{Command, notify_human_for_approval, push_changes}
use agentic_temporal_wf.Workflow.Keys.{HexDigest, push_operation_key}
use agentic_temporal_wf.Workflow.Request.{
  notifying, awaiting_decision, pushing, answered, open_operation, act_on_decision, pop_approval,
  result_of, finish_push,
}
use agentic_temporal_wf.Models.{
  pending_approval, CommitResult, OperationResult, OperationStatus, WorkflowState, OperationRequest,
}
use agentic_temporal_wf.Base.{
  ℕ, Bool, true, false, none, some, List, [], ◌∷◌, ◌++◌, ◌≡◌, refl, if◌then◌else◌, returns, nat_eq,
  text_eq, append_assoc, get_or,
}
use agentic_temporal_wf.Base.Text.{Text, codes}
use agentic_temporal_wf.Base.Dict.{lookup, insert, lookup-insert_self, lookup-erase_self}

-- The stations of one request, from the system `s` on.
module _ (h : HexDigest) (id : Text) (n : ℕ) (request : OperationRequest) (s : System) where
  abbrev pub key : Text
  key = push_operation_key h id s.workflow.state.iterations

  abbrev pub requested : System
  requested = apply_handler n s (open_operation key request s.workflow)

  abbrev pub asked : System
  asked = apply_handler n requested (stay (awaiting_decision key request) requested.workflow)

  module _ (going : is_over s.main ≡ false) (idle_slot : lookup n s.handlers ≡ none)
      (new : lookup key s.workflow.state.operations ≡ none) where
    update-requested : step h id s (update n request) ≡ requested
    update-requested =
        rw (step-update h id n request s going idle_slot)
          (rw (begin_request-new h id request s.workflow new))

    notified-asked : step h id requested (resume n notified) ≡ asked
    unfolding open_operation
    notified-asked =
        rw
          (step-resume h id n notified requested (notifying key request) going
            (lookup-insert_self n (notifying key request) s.handlers))
          (unfold on_handler in
            rw (
              check_decision-waits id key request requested.workflow
                (lookup-insert_self key (pending_approval key) s.workflow.approvals)))

  module _ (allowed : Bool) (reason : Text) where
    abbrev pub answered_by : System
    answered_by = record asked {
      workflow = record asked.workflow {
        approvals = insert key (decided_approval key allowed reason) asked.workflow.approvals;
      };
    }

    abbrev pub acted : System
    acted = apply_handler n answered_by (
        act_on_decision id key request (pop_approval key answered_by.workflow)
          (returns (record { allowed = allowed; reason = reason })))

    decision-answered :
        is_over s.main ≡ false
        → step h id asked (signal (decision (decision_payload key allowed reason))) ≡ answered_by
    unfolding open_operation
    decision-answered going =
        rw (step-signal h id (decision (decision_payload key allowed reason)) asked going) (
          rw (
            on_signal-decision key allowed reason asked.workflow
              (lookup-insert_self key (pending_approval key) s.workflow.approvals)))

    wake-acted : is_over s.main ≡ false → step h id answered_by (resume n wake) ≡ acted
    wake-acted going =
        rw
          (step-resume h id n wake answered_by (awaiting_decision key request) going
            (lookup-insert_self n (awaiting_decision key request) requested.handlers))
          (unfold on_handler in
            rw (
              check_decision-decides id key request answered_by.workflow allowed reason (
                lookup-insert_self key (decided_approval key allowed reason)
                  asked.workflow.approvals)))

  abbrev pub published : Text → CommitResult → System
  published reason commit =
      apply_handler n (acted true reason) (finish_push key commit (acted true reason).workflow)

  push-published :
      (reason : Text) (commit : CommitResult)
      → is_over s.main ≡ false
      → step h id (acted true reason) (resume n (push_result commit)) ≡ published reason commit
  unfolding act_on_decision
  push-published reason commit going =
      rw
        (step-resume h id n (push_result commit) (acted true reason) (pushing key request) going
          (lookup-insert_self n (pushing key request) (answered_by true reason).handlers))
        (unfold on_handler in refl)

-- The inputs of a request that is approved and pushed, and of one that is denied.
abbrev pub until_decision : ℕ → OperationRequest → Text → Bool → Text → List Input
until_decision n request key allowed reason =
    update n request
    ∷ resume n notified
    ∷ signal (decision (decision_payload key allowed reason))
    ∷ resume n wake
    ∷ []

-- The approval request that is posted for the key.
abbrev pub notification : Text → OperationRequest → WorkflowState → Command
notification key request st =
    notify_human_for_approval st.pr.owner st.pr.repo st.pr.number (record {
      approval_id = key;
      tool_name = codes "push_changes";
      tool_input = request;
      iteration = st.iterations;
    })

abbrev pub push_result_of : Text → CommitResult → OperationResult
push_result_of key commit =
    result_of key (if commit.pushed then OperationStatus.pushed else OperationStatus.failed)
      (some true) commit.commit_sha (get_or commit.reason [])

module _ (h : HexDigest) (id : Text) (n : ℕ) (request : OperationRequest) (s : System)
    (reason : Text) (going : is_over s.main ≡ false) (free : lookup n s.handlers ≡ none)
    (new : lookup (key h id n request s) s.workflow.state.operations ≡ none) where
  pub decided-acted :
      (allowed : Bool)
      → run_inputs h id s (until_decision n request (key h id n request s) allowed reason)
        ≡ acted h id n request s allowed reason
  unfolding run_inputs
  decided-acted allowed = rw (
    update-requested h id n request s going free new,
    notified-asked h id n request s going free new,
    decision-answered h id n request s allowed reason going,
    wake-acted h id n request s allowed reason going,
  )

  pub approved-published :
      (commit : CommitResult)
      → run_inputs h id s (
          until_decision n request (key h id n request s) true reason
          ++ resume n (push_result commit) ∷ [])
        ≡ published h id n request s reason commit
  unfolding run_inputs
  approved-published commit = rw (
    update-requested h id n request s going free new,
    notified-asked h id n request s going free new,
    decision-answered h id n request s true reason going,
    wake-acted h id n request s true reason going,
    push-published h id n request s reason commit going,
  )

  -- In a run that is not over, for a key with no operation yet: after the update, the notification,
  -- an approval for the key and the end of `push_changes`, the update has returned what is
  -- recorded under the key, `pushed` or `failed` as the activity says; the approval is gone; and
  -- just two activities were scheduled, the notification and one push, of the pull request and
  -- the workflow that the run is bound to, with the message of the request.
  pub request-approved :
      (commit : CommitResult)
      → let k = key h id n request s in
        let s' =
          run_inputs h id s
            (until_decision n request k true reason ++ resume n (push_result commit) ∷ []) in
        let r = push_result_of k commit in
        (lookup n s'.handlers ≡ some (answered r))
        × (lookup k s'.workflow.state.operations ≡ some r)
        × (lookup k s'.workflow.approvals ≡ none)
        × (s'.commands
            ≡ s.commands
              ++ notification k request s.workflow.state
                ∷ push_changes s.workflow.state.pr id request.commit_message k
                ∷ [])
  unfolding open_operation act_on_decision finish_push
  request-approved commit =
      let k = key h id n request s in
      let r = push_result_of k commit in
      rw (approved-published commit) (
        lookup-insert_self n (answered r) _,
        lookup-insert_self k r _,
        lookup-erase_self k _,
        simp append_assoc,
      )

  -- After a denial the update has returned the denial with its reason, which is recorded under the
  -- key, the approval is gone, and nothing but the notification was scheduled.
  pub request-denied :
      let k = key h id n request s in
      let s' = run_inputs h id s (until_decision n request k false reason) in
      let r = result_of k OperationStatus.denied (some false) none reason in
      (lookup n s'.handlers ≡ some (answered r))
      × (lookup k s'.workflow.state.operations ≡ some r)
      × (lookup k s'.workflow.approvals ≡ none)
      × (s'.commands ≡ s.commands ++ notification k request s.workflow.state ∷ [])
  unfolding open_operation act_on_decision
  request-denied =
      let k = key h id n request s in
      let r = result_of k OperationStatus.denied (some false) none reason in
      rw (decided-acted false) (
        lookup-insert_self n (answered r) _,
        lookup-insert_self k r _,
        lookup-erase_self k _,
        simp append_assoc,
      )
