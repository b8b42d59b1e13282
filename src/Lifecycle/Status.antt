-- ===== src/Lifecycle/Status.antt =====
-- `post_status` and the comment that it renders. GitHub's replies are arguments.
pub mod Laws
use agentic_temporal_wf.Base.{ℕ, Bool, ◌&&◌, ◌||◌, Option, none, some, List, [], ◌∷◌, ◌++◌}
use agentic_temporal_wf.Base.{if◌then◌else◌, ltb, leb, ◌==◌, nat_eq, take}
use agentic_temporal_wf.Base.{Outcome, returns, raises, key_error, http_error, ◌>>=◌, ◌>>◌}
use agentic_temporal_wf.Base.Text.{Text, codes, show, join, nonempty}
use agentic_temporal_wf.Models.{
  PrRef, FixPlan, WorkflowState, PlanAction, applied_fix, no_action_needed, blocked,
}

-- A response with its status and the `id` of its JSON body, or an `httpx.HTTPError`.
pub data Reply : Type 0 where
  response : ℕ → Option ℕ → Reply
  no_response : Reply

pub data Method : Type 0 where
  post patch : Method

pub record HttpRequest : Type 0 where
  pub method : Method
  pub url : Text

abbrev repo_url : PrRef → Text
repo_url pr = codes "https://api.github.com/repos/" ++ pr.owner ++ codes "/" ++ pr.repo

abbrev action_name : PlanAction → Text
action_name applied_fix = codes "applied_fix"
action_name no_action_needed = codes "no_action_needed"
action_name blocked = codes "blocked"

abbrev present : Option Text → (Text → List Text) → List Text
present none f = []
present (some t) f = if nonempty t then f t else []

-- `_render_status_markdown`
unfoldable pub render_status_markdown : WorkflowState → FixPlan → Text
unfolding join show
render_status_markdown s plan = join (codes "\n") (
    ((codes "### 🤖 AutoFix — iteration " ++ show s.iterations)
      ∷ (codes "**Action:** `" ++ action_name plan.action ++ codes "`")
      ∷ []
      ∷ plan.summary
      ∷ [])
    ++ present plan.commit_sha (λ sha. [] ∷ (codes "Commit: `" ++ take 7 sha ++ codes "`") ∷ [])
    ++ present plan.blocking_reason (λ reason. [] ∷ (codes "**Blocked because:** " ++ reason) ∷ []))

-- The comment is created once, and then updated in place.
unfoldable pub comment_request : WorkflowState → HttpRequest
comment_request s = elim s.posted_status_comment_id [
  | none ↦ record {
    method = post;
    url = repo_url s.pr ++ codes "/issues/" ++ show s.pr.number ++ codes "/comments";
  }
  | some id ↦ record { method = patch; url = repo_url s.pr ++ codes "/issues/comments/" ++ show id }
]

unfoldable pub check_run_request : WorkflowState → HttpRequest
check_run_request s = record { method = post; url = repo_url s.pr ++ codes "/check-runs" }

-- The `conclusion` of the check run.
unfoldable pub conclusion : PlanAction → Text
conclusion applied_fix = codes "success"
conclusion no_action_needed = codes "neutral"
conclusion blocked = codes "failure"

abbrev is_success : ℕ → Bool
is_success status = leb 200 status && ltb status 300

-- `r.raise_for_status()`, then the `id` of the body.
unfoldable pub checked : Reply → Outcome (Option ℕ)
checked no_response = raises http_error
checked (response status id) = if is_success status then returns id else raises http_error

abbrev the_id : Option ℕ → Outcome ℕ
the_id none = raises key_error
the_id (some id) = returns id

unfoldable pub comment_posted : Reply → WorkflowState → Outcome WorkflowState
unfolding checked
comment_posted reply s = elim s.posted_status_comment_id [
  | none ↦ do
    id ← the_id (← checked reply)
    returns (record s { posted_status_comment_id = some id })
  | some _ ↦ do checked reply; returns s
]

-- A check run that GitHub refuses, or that cannot be sent, is passed over.
unfoldable pub check_run_posted : Reply → WorkflowState → Outcome WorkflowState
check_run_posted no_response s = returns s
check_run_posted (response status id) s =
    if status == 201
    then (do run_id ← the_id id; returns (record s { last_check_run_id = some run_id }))
    else returns s

-- `post_status`, from the replies to its two requests.
unfoldable pub post_status : Reply → Reply → WorkflowState → Outcome WorkflowState
unfolding comment_posted check_run_posted
post_status comment check s = do s' ← comment_posted comment s; check_run_posted check s'
