-- ===== src/Models.antt =====
-- src/models.py: the records that the workflow, its activities and the services exchange.
-- A field `T | None` is an `Option`; a Python set is the list of its members.
use agentic_temporal_wf.Base.{◌≡◌, ℕ, Bool, true, false, not, Option, none, some, List, []}
use agentic_temporal_wf.Base.{Outcome, returns, raises, validation_error}
use agentic_temporal_wf.Base.Text.{Text}
use agentic_temporal_wf.Base.Dict.{Dict}
use agentic_temporal_wf.Base.Json.{Json, string, number}

-- How pydantic reads a field of type `str` or `int`; `none` is a validation error.
pub record Pydantic : Type 0 where
  pub str_of : Json → Option Text
  pub int_of : Json → Option ℕ

-- What is documented of it: a value that has the type is taken as it is.
pub record IsPydantic (v : Pydantic) : Type 0 where
  pub str_of-string : (t : Text) → v.str_of (string t) ≡ some t
  pub int_of-number : (n : ℕ) → v.int_of (number n) ≡ some n

abbrev pub valid : {A : Type 0} → Option A → Outcome A
valid none = raises validation_error
valid (some a) = returns a

pub record SandboxHandle : Type 0 where
  pub container_id : Text
  pub workdir : Text

pub record SnapshotRef : Type 0 where
  pub image_tag : Text
  pub iteration : ℕ
  pub s3_bucket : Option Text
  pub s3_key : Option Text

pub record ExecResult : Type 0 where
  pub exit_code : ℕ
  pub stdout : Text
  pub stderr : Text

pub record CommitResult : Type 0 where
  pub pushed : Bool
  pub commit_sha : Option Text
  pub reason : Option Text

pub record PrRef : Type 0 where
  pub owner : Text
  pub repo : Text
  pub number : ℕ
  pub head_sha : Text
  pub head_ref : Text

-- `Time` is the type of points in time; the code only compares `expires_at` with the clock.
pub record CapabilityBinding (Time : Type 0) : Type 0 where
  pub workflow_id : Text
  pub repository : Text
  pub pr_number : ℕ
  pub workspace_path : Text
  pub capabilities : List Text
  pub expires_at : Time
  pub iteration : ℕ

pub data EventKind : Type 0 where
  pr_opened pr_synchronize issue_comment review_comment check_suite_completed : EventKind

pub record GitHubEvent : Type 0 where
  pub kind : EventKind
  pub delivery_id : Text
  pub payload : Json

pub data PlanAction : Type 0 where
  applied_fix no_action_needed blocked : PlanAction

pub record FixPlan : Type 0 where
  pub action : PlanAction
  pub summary : Text
  pub addressed_comment_ids : List ℕ
  pub addressed_failures : List Text
  pub commit_sha : Option Text
  pub blocking_reason : Option Text

pub record OperationRequest : Type 0 where
  pub summary : Text
  pub commit_message : Text

pub data OperationStatus : Type 0 where
  pending approved denied pushed failed : OperationStatus

pub record OperationResult : Type 0 where
  pub operation_key : Text
  pub status : OperationStatus
  pub approval_id : Option Text
  pub approval_decision : Option Bool
  pub external_result_id : Option Text
  pub reason : Text

pub record WorkflowState : Type 0 where
  pub pr : PrRef
  pub pending_events : List GitHubEvent
  pub processed_delivery_ids : List Text
  pub processed_comment_ids : List ℕ
  pub iterations : ℕ
  pub posted_status_comment_id : Option ℕ
  pub last_check_run_id : Option ℕ
  pub closed : Bool
  pub sandbox : Option SandboxHandle
  pub operations : Dict Text OperationResult

-- `WorkflowState(pr=pr)`
unfoldable pub initial_state : PrRef → WorkflowState
initial_state pr = record {
  pr = pr;
  pending_events = [];
  processed_delivery_ids = [];
  processed_comment_ids = [];
  iterations = 0;
  posted_status_comment_id = none;
  last_check_run_id = none;
  closed = false;
  sandbox = none;
  operations = [];
}

-- `tool_input` holds the summary and the commit message of the request.
pub record ApprovalRequest : Type 0 where
  pub approval_id : Text
  pub tool_name : Text
  pub tool_input : OperationRequest
  pub iteration : ℕ

pub record ApprovalDecision : Type 0 where
  pub allowed : Bool
  pub reason : Text

-- Assignment to a field is not validated, so `reason` holds whatever the signal carried.
pub record ApprovalState : Type 0 where
  pub approval_id : Text
  pub pending : Bool
  pub allowed : Bool
  pub reason : Json

-- `ApprovalState(approval_id=approval_id, pending=True)`
unfoldable pub pending_approval : Text → ApprovalState
pending_approval approval_id = record {
  approval_id = approval_id;
  pending = true;
  allowed = false;
  reason = string [];
}

unfoldable pub decided : ApprovalState → Bool
decided a = not a.pending

-- A decision validates its reason, which must be a text.
abbrev pub validated_decision : Bool → Json → Outcome ApprovalDecision
validated_decision allowed (string reason) = returns (record { allowed = allowed; reason = reason })
validated_decision allowed _ = raises validation_error

unfoldable pub to_decision : ApprovalState → Outcome ApprovalDecision
to_decision a = validated_decision a.allowed a.reason

-- A plan that reports a failure, as the code builds it.
unfoldable pub blocked_plan : Text → Text → FixPlan
blocked_plan summary reason = record {
  action = blocked;
  summary = summary;
  addressed_comment_ids = [];
  addressed_failures = [];
  commit_sha = none;
  blocking_reason = some reason;
}
