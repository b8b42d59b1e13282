-- ===== src/Tests/Data.antt =====
-- Data that the tests share: a pull request, its events, a run and a digest.
use agentic_temporal_wf.Base.{
  ℕ, ◌+◌, ◌%◌, zero, suc, true, false, none, some, List, [], ◌∷◌, ◌++◌, length,
}
use agentic_temporal_wf.Base.Text.{Text, codes}
use agentic_temporal_wf.Base.Json.{object, end}
use agentic_temporal_wf.Models.{
  PrRef, GitHubEvent, pr_opened, OperationRequest, SandboxHandle, CommitResult, FixPlan,
  applied_fix,
}
use agentic_temporal_wf.Workflow.Keys.{HexDigest, push_operation_key}
use agentic_temporal_wf.Workflow.System.{
  Input, main_input, signal, workdir_ready, sandbox_ready, wake_run, plan, status_posted, event,
  close_run, sandbox_gone, workdir_gone,
}
use agentic_temporal_wf.Lifecycle.Status.{Reply, response}

abbrev pub pr : PrRef
pr = record {
  owner = codes "o";
  repo = codes "r";
  number = 7;
  head_sha = codes "abc";
  head_ref = codes "fix";
}

abbrev pub opened : Text → GitHubEvent
opened id = record { kind = pr_opened; delivery_id = id; payload = object end }

abbrev pub workflow_name : Text
workflow_name = codes "pr-autofix-o-r-7"

abbrev copies : ℕ → ℕ → Text
copies zero c = []
copies (suc n) c = c ∷ copies n c

-- A digest in form only: its digit depends on the length of the text.
abbrev pub digest : HexDigest
digest raw = copies 64 (b'0' + length raw % 10)

abbrev pub request : OperationRequest
request = record { summary = codes "fix"; commit_message = codes "fix the test" }

abbrev pub sandbox : SandboxHandle
sandbox = record { container_id = codes "c1"; workdir = codes "/work" }

abbrev pub commit : CommitResult
commit = record { pushed = true; commit_sha = some (codes "def"); reason = none }

abbrev pub fixed_plan : FixPlan
fixed_plan = record {
  action = applied_fix;
  summary = codes "done";
  addressed_comment_ids = 3 ∷ [];
  addressed_failures = [];
  commit_sha = none;
  blocking_reason = none;
}

-- Up to the wait for events.
abbrev pub until_idle : List Input
until_idle = main_input workdir_ready ∷ main_input (sandbox_ready sandbox) ∷ []

-- One iteration, up to its status.
abbrev pub until_posting : List Input
until_posting =
    until_idle
    ++ signal (event (opened (codes "d1")))
      ∷ main_input wake_run
      ∷ main_input (plan fixed_plan)
      ∷ []

abbrev pub comment_reply : Reply
comment_reply = response 201 (some 11)

abbrev pub check_reply : Reply
check_reply = response 201 (some 12)

-- A run with one iteration, to its end.
abbrev pub until_completed : List Input
until_completed =
    until_posting
    ++ main_input (status_posted comment_reply check_reply false)
      ∷ signal close_run
      ∷ main_input wake_run
      ∷ main_input sandbox_gone
      ∷ main_input workdir_gone
      ∷ []

abbrev pub until_continued : List Input
until_continued = until_posting ++ main_input (status_posted comment_reply check_reply true) ∷ []

-- The key of a run's first iteration.
abbrev pub first_key : Text
first_key = push_operation_key digest workflow_name 1

-- The first iteration is under way.
abbrev pub until_iterating : List Input
until_iterating = until_idle ++ signal (event (opened (codes "d1"))) ∷ main_input wake_run ∷ []
