-- ===== src/Workflow.antt =====
-- src/workflows/pr_autofix.py: the workflow object and the handlers that change it.
-- The coroutines `request_push_changes` and `run` are cut at their `await`s; see the children.
pub mod Keys
pub mod Command
pub mod Request
pub mod Run
pub mod System
pub mod Signals
use agentic_temporal_wf.Base.{
  ℕ, Bool, true, false, Option, none, some, List, [], ◌∷◌, ◌++◌, contains, text_eq,
}
use agentic_temporal_wf.Base.{if◌then◌else◌, add, get_or, union, nat_eq}
use agentic_temporal_wf.Base.{Outcome, returns, raises, type_error, key_error, ◌>>=◌}
use agentic_temporal_wf.Base.Text.{Text, codes}
use agentic_temporal_wf.Base.Dict.{Dict, lookup, insert}
use agentic_temporal_wf.Base.Json.{Json, truthy, null, boolean, number, string, array, object}
use agentic_temporal_wf.Models.{GitHubEvent, WorkflowState, ApprovalState, FixPlan, PrRef}
use agentic_temporal_wf.Models.{initial_state}

-- `MAX_ITERATIONS`
abbrev pub max_iterations : ℕ
max_iterations = 5

-- The attributes of the object: `_state` and `_approvals`.
pub record Workflow : Type 0 where
  pub state : WorkflowState
  pub approvals : Dict Text ApprovalState

-- The workflow is started on a pull request, or continued from an earlier run's state.
pub data Init : Type 0 where
  from_pr : PrRef → Init
  from_state : WorkflowState → Init

-- `__init__`
unfoldable pub create : Init → Workflow
unfolding initial_state
create (from_pr pr) = record { state = initial_state pr; approvals = [] }
create (from_state s) = record { state = s; approvals = [] }

-- The body of `on_event`, on `_state`.
unfoldable pub record_event : GitHubEvent → WorkflowState → WorkflowState
record_event event s = if contains s.processed_delivery_ids event.delivery_id then s else record s {
  processed_delivery_ids = add event.delivery_id s.processed_delivery_ids;
  pending_events = s.pending_events ++ event ∷ [];
}

-- `on_event`
unfoldable pub on_event : GitHubEvent → Workflow → Workflow
unfolding record_event
on_event event w = record w { state = record_event event w.state }

-- `close`
unfoldable pub close : Workflow → Workflow
close w = record w { state = record w.state { closed = true } }

-- The key under which `_approvals` is read: a text, or another value that is found under no key. A
-- list or a dict cannot be a key.
unfoldable pub approval_key : Json → Outcome (Option Text)
approval_key (string k) = returns (some k)
approval_key (array _) = raises type_error
approval_key (object _) = raises type_error
approval_key _ = returns none

-- The assignments of `submit_approval_decision` to the approval that was found.
unfoldable pub decide : Dict Text Json → ApprovalState → ApprovalState
unfolding truthy
decide payload a = record a {
  pending = false;
  allowed = truthy (get_or (lookup (codes "allowed") payload) (boolean false));
  reason = get_or (lookup (codes "reason") payload) (string []);
}

store_decision : Dict Text Json → Workflow → Option Text → Workflow
store_decision payload w none = w
store_decision payload w (some k) = elim (lookup k w.approvals) [
  | none ↦ w
  | some a ↦ record w { approvals = insert k (decide payload a) w.approvals }
]

-- `payload["approval_id"]` was found, or is missing.
unfoldable pub record_decision : Dict Text Json → Workflow → Option Json → Outcome Workflow
unfolding store_decision approval_key decide
record_decision payload w none = raises key_error
record_decision payload w (some id) = do k ← approval_key id; returns (store_decision payload w k)

-- `submit_approval_decision`
unfoldable pub submit_approval_decision : Dict Text Json → Workflow → Outcome Workflow
unfolding record_decision
submit_approval_decision payload w =
    record_decision payload w (lookup (codes "approval_id") payload)

-- `_apply_plan`
unfoldable pub apply_plan : FixPlan → WorkflowState → WorkflowState
apply_plan plan s = record s {
  processed_comment_ids = union s.processed_comment_ids plan.addressed_comment_ids;
}
