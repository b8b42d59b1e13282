-- ===== src/Iteration/Prompt.antt =====
-- src/activities/agent_iteration.py: the prompt of an iteration.
use agentic_temporal_wf.Base.{List, [], ◌∷◌, ◌++◌, map, take}
use agentic_temporal_wf.Base.Text.{Text, codes, join, show}
use agentic_temporal_wf.Base.Text.Lines.{sorted}
use agentic_temporal_wf.Base.Json.{Json, Fields, object, end, field}
use agentic_temporal_wf.Models.{
  PrRef, WorkflowState, GitHubEvent, EventKind, pr_opened, pr_synchronize, issue_comment,
  review_comment, check_suite_completed,
}

abbrev pub kind_name : EventKind → Text
kind_name pr_opened = codes "pr_opened"
kind_name pr_synchronize = codes "pr_synchronize"
kind_name issue_comment = codes "issue_comment"
kind_name review_comment = codes "review_comment"
kind_name check_suite_completed = codes "check_suite_completed"

abbrev pub names_of : Fields → List Text
names_of end = []
names_of (field k _ fs) = k ∷ names_of fs

-- `e.payload.keys()`: a payload is a dict.
abbrev pub payload_keys : Json → List Text
payload_keys (object fs) = names_of fs
payload_keys _ = []

-- `repr` writes a list of texts.
unfoldable pub event_line : (List Text → Text) → GitHubEvent → Text
unfolding sorted
event_line repr e =
    codes "- ["
    ++ kind_name e.kind
    ++ codes "] delivery="
    ++ e.delivery_id
    ++ codes " payload_keys="
    ++ repr (sorted (payload_keys e.payload))

unfoldable pub pr_line : PrRef → Text
pr_line pr =
    codes "PR: "
    ++ pr.owner
    ++ codes "/"
    ++ pr.repo
    ++ codes "#"
    ++ show pr.number
    ++ codes " (head "
    ++ take 7 pr.head_sha
    ++ codes " on "
    ++ pr.head_ref
    ++ codes ")"

-- `_build_prompt`
unfoldable pub build_prompt : (List Text → Text) → WorkflowState → List GitHubEvent → Text
unfolding join event_line pr_line
build_prompt repr state events = join (codes "\n") (
    (pr_line state.pr
      ∷ (codes "Iteration: " ++ show state.iterations)
      ∷ []
      ∷ codes "Pending events:"
      ∷ [])
    ++ map (event_line repr) events)
