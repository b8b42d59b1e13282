-- ===== src/Tests/Workflow.antt =====
-- The theorems on the workflow at concrete runs.
use agentic_temporal_wf.Workflow.System.{step}
use agentic_temporal_wf.Workflow.Request.{awaiting_prior}
use agentic_temporal_wf.Base.{Bool, false}
use agentic_temporal_wf.Base.{
  ℕ, ◌≤◌, ◌≢◌, true, false, ◌||◌, none, some, List, [], ◌∷◌, ◌++◌, ◌≡◌, refl, contains, text_eq,
  nat_eq, arith, returns,
}
use agentic_temporal_wf.Base.Text.{Text, codes, show}
use agentic_temporal_wf.Base.Dict.{lookup, insert}
use agentic_temporal_wf.Workflow.{from_pr, create}
use agentic_temporal_wf.Workflow.Command.{push_changes}
use agentic_temporal_wf.Workflow.Request.{pushing, answered, aborted, result_of}
use agentic_temporal_wf.Workflow.Run.{posting, completed, continued}
use agentic_temporal_wf.Workflow.Keys.{push_operation_key}
use agentic_temporal_wf.Workflow.Signals.{
  deliver, with_queue, new_deliveries, ids, deliver_lem, deliver_again,
}
use agentic_temporal_wf.Workflow.System.{
  System, start, run_inputs, Input, signal, event, close_run, main_input, status_posted, is_over,
  push_result, resume, update, push_error, timeout,
}
use agentic_temporal_wf.Workflow.System.Authorized.{pushed_keys, any_approves, pushed_key-approved}
use agentic_temporal_wf.Workflow.System.Bounds.{agent_runs_of, agent_runs_bounded}
use agentic_temporal_wf.Workflow.System.Resources.{
  resource_commands, returned, made, accepted, delivered, completed-returned, continued-keeps,
}
use agentic_temporal_wf.Tests.Data.{
  pr, opened, workflow_name, digest, request, commit, fixed_plan, until_posting, until_iterating,
  comment_reply, check_reply, until_completed, until_continued,
}
use agentic_temporal_wf.Workflow.System.Approval.{decision_payload}
use agentic_temporal_wf.Workflow.System.Publication.{
  until_decision, key, push_result_of, notification, request-approved, request-denied,
}
use agentic_temporal_wf.Workflow.System.Repeat.{key_of, wakes, first_inputs, push_error-pending}
use agentic_temporal_wf.Workflow.System.Posting.{posting_discards}
use agentic_temporal_wf.Base.{activity_error, timeout_error}
use agentic_temporal_wf.Lifecycle.Status.{post_status}
use agentic_temporal_wf.Models.{WorkflowState, GitHubEvent, OperationResult, pending, denied}

abbrev run : List Input → System
run = run_inputs digest workflow_name (start (from_pr pr))

-- An approved push, in the first iteration.
abbrev until_approved : List Input
until_approved =
    until_iterating
    ++ until_decision 1 request (push_operation_key digest workflow_name 1) true (codes "ok")

key_pushed :
    contains (pushed_keys (run until_approved).commands) (push_operation_key digest workflow_name 1)
    ≡ true
unfolding run_inputs push_operation_key show text_eq start lookup insert decision_payload
key_pushed = refl

pushed_key-approved_example :
    any_approves (push_operation_key digest workflow_name 1) until_approved ≡ true
pushed_key-approved_example =
    pushed_key-approved digest workflow_name (from_pr pr) until_approved
      (push_operation_key digest workflow_name 1) key_pushed

agent_runs_bounded_example :
    agent_runs_of digest workflow_name (from_pr pr) (until_continued ∷ until_approved ∷ []) ≤ 5
agent_runs_bounded_example =
    agent_runs_bounded digest workflow_name pr (until_continued ∷ until_approved ∷ [])

run_completed : (run until_completed).main ≡ completed (codes "done after 1 iterations")
unfolding run_inputs start show text_eq post_status
run_completed = refl

completed-returned_example :
    (resource_commands (run until_completed).commands
      ≡ returned pr (run until_completed).workflow.state.sandbox)
    × (accepted (delivered until_completed) (run until_completed).workflow.state.sandbox ≡ true)
completed-returned_example =
    completed-returned digest workflow_name (from_pr pr) until_completed run_completed

run_continued : (run until_continued).main ≡ continued (run until_continued).workflow.state
unfolding run_inputs start show text_eq post_status
run_continued = refl

continued-keeps_example :
    (resource_commands (run until_continued).commands ≡ made pr)
    × (accepted (delivered until_continued) (run until_continued).workflow.state.sandbox ≡ true)
continued-keeps_example =
    continued-keeps digest workflow_name (from_pr pr) until_continued run_continued

abbrev iterating_run : System
iterating_run = run until_iterating

iterating-going : is_over iterating_run.main ≡ false
unfolding run_inputs start text_eq
iterating-going = refl

iterating-no_handlers : (n : ℕ) → lookup n iterating_run.handlers ≡ none
unfolding run_inputs start text_eq lookup
iterating-no_handlers n = refl

iterating-no_operations : (k : Text) → lookup k iterating_run.workflow.state.operations ≡ none
unfolding run_inputs start text_eq lookup
iterating-no_operations k = refl

abbrev k1 : Text
k1 = key digest workflow_name 1 request iterating_run

abbrev approved_run : System
approved_run =
    run_inputs digest workflow_name iterating_run
      (until_decision 1 request k1 true (codes "ok") ++ resume 1 (push_result commit) ∷ [])

request-approved_example :
    (lookup 1 approved_run.handlers ≡ some (answered (push_result_of k1 commit)))
    × (lookup k1 approved_run.workflow.state.operations ≡ some (push_result_of k1 commit))
    × (lookup k1 approved_run.workflow.approvals ≡ none)
    × (approved_run.commands
        ≡ iterating_run.commands
          ++ notification k1 request iterating_run.workflow.state
            ∷ push_changes iterating_run.workflow.state.pr workflow_name request.commit_message k1
            ∷ [])
request-approved_example =
    request-approved digest workflow_name 1 request iterating_run (codes "ok") iterating-going
      (iterating-no_handlers 1) (iterating-no_operations k1) commit

abbrev denied_run : System
denied_run =
    run_inputs digest workflow_name iterating_run
      (until_decision 1 request k1 false (codes "not now"))

request-denied_example :
    (lookup 1 denied_run.handlers
      ≡ some (answered (result_of k1 denied (some false) none (codes "not now"))))
    × (lookup k1 denied_run.workflow.state.operations
        ≡ some (result_of k1 denied (some false) none (codes "not now")))
    × (lookup k1 denied_run.workflow.approvals ≡ none)
    × (denied_run.commands
        ≡ iterating_run.commands ++ notification k1 request iterating_run.workflow.state ∷ [])
request-denied_example =
    request-denied digest workflow_name 1 request iterating_run (codes "not now") iterating-going
      (iterating-no_handlers 1) (iterating-no_operations k1)

one≢two : ◌≢◌ {A = ℕ} 1 2
one≢two e = omega (arith, e)

abbrev repeated_run : Bool → System
repeated_run allowed =
    run_inputs digest workflow_name iterating_run
      (first_inputs 1 request k1 allowed (codes "ok") commit ++ update 2 request ∷ [])

abbrev first_run : Bool → System
first_run allowed =
    run_inputs digest workflow_name iterating_run
      (first_inputs 1 request k1 allowed (codes "ok") commit)

-- A push is in flight.
abbrev pushing_run : System
pushing_run = run until_approved

abbrev prior : OperationResult
prior = result_of (key_of digest workflow_name pushing_run) pending none none []

pushing-going : is_over pushing_run.main ≡ false
unfolding run_inputs start text_eq show lookup insert decision_payload push_operation_key
pushing-going = refl

pushing-at_push :
    lookup 1 pushing_run.handlers ≡ some (pushing (key_of digest workflow_name pushing_run) request)
unfolding run_inputs start text_eq show lookup insert decision_payload push_operation_key
pushing-at_push = refl

pushing-free : lookup 2 pushing_run.handlers ≡ none
unfolding run_inputs start text_eq show lookup insert decision_payload push_operation_key
pushing-free = refl

pushing-prior :
    lookup (key_of digest workflow_name pushing_run) pushing_run.workflow.state.operations
    ≡ some prior
unfolding run_inputs start text_eq show lookup insert decision_payload push_operation_key
pushing-prior = refl

abbrev waiting_run : System
waiting_run =
    run_inputs digest workflow_name pushing_run
      (resume 1 push_error ∷ update 2 request ∷ wakes digest workflow_name 2 3)

abbrev stuck_run : System
stuck_run = step digest workflow_name waiting_run (resume 2 timeout)

push_error-pending_example :
    (lookup 1 stuck_run.handlers ≡ some (aborted activity_error))
    × (lookup 2 waiting_run.handlers
        ≡ some (awaiting_prior (key_of digest workflow_name pushing_run)))
    × (lookup 2 stuck_run.handlers ≡ some (aborted timeout_error))
    × (lookup (key_of digest workflow_name pushing_run) stuck_run.workflow.state.operations
        ≡ some prior)
    × (stuck_run.commands ≡ pushing_run.commands)
push_error-pending_example =
    push_error-pending digest workflow_name 1 2 3 request request pushing_run prior pushing-going
      one≢two pushing-at_push pushing-free pushing-prior refl

abbrev posting_run : System
posting_run = run until_posting

-- The state that `post_status` was sent, and the one that it returns.
abbrev sent_state : WorkflowState
sent_state = posting_run.workflow.state

abbrev returned_state : WorkflowState
returned_state = record sent_state {
  posted_status_comment_id = some 11;
  last_check_run_id = some 12;
}

abbrev meanwhile : List Input
meanwhile = signal (event (opened (codes "d2"))) ∷ signal close_run ∷ []

posting-at_post : posting_run.main ≡ posting sent_state fixed_plan
unfolding run_inputs start text_eq
posting-at_post = refl

posting-returned : post_status comment_reply check_reply sent_state ≡ returns returned_state
unfolding post_status run_inputs start text_eq
posting-returned = refl

abbrev overwritten : System
overwritten =
    run_inputs digest workflow_name posting_run
      (meanwhile ++ main_input (status_posted comment_reply check_reply false) ∷ [])

posting_discards_example :
    (overwritten.workflow.state.pending_events ≡ sent_state.pending_events)
    × (overwritten.workflow.state.processed_delivery_ids ≡ sent_state.processed_delivery_ids)
    × (overwritten.workflow.state.closed ≡ sent_state.closed)
    × (overwritten.workflow.state.operations ≡ sent_state.operations)
posting_discards_example =
    posting_discards digest workflow_name comment_reply check_reply false meanwhile posting_run
      posting-at_post posting-returned refl

-- A queue with a repetition.
abbrev deliveries : List GitHubEvent
deliveries = opened (codes "d1") ∷ opened (codes "d2") ∷ opened (codes "d1") ∷ []

abbrev fresh : WorkflowState
fresh = (create (from_pr pr)).state

deliver_again_example : deliver deliveries (deliver deliveries fresh) ≡ deliver deliveries fresh
deliver_again_example = deliver_again deliveries fresh

deliver_lem_example :
    ((deliver deliveries fresh).pending_events
      ≡ fresh.pending_events ++ new_deliveries fresh.processed_delivery_ids [] deliveries)
    × ((k : Text)
        → contains (deliver deliveries fresh).processed_delivery_ids k
          ≡ (contains fresh.processed_delivery_ids k || contains (ids deliveries) k))
    × (with_queue (deliver deliveries fresh) [] [] ≡ with_queue fresh [] [])
deliver_lem_example = deliver_lem deliveries fresh
