-- ===== src/Gateway/Project.antt =====
-- `_project_event`: which webhooks concern a pull request, and what is taken from them.
use agentic_temporal_wf.Base.{Bool, false, Option, none, some, if◌then◌else◌}
use agentic_temporal_wf.Base.{◌==◌, text_eq, get_or}
use agentic_temporal_wf.Base.{Outcome, returns, raises, ◌>>=◌, type_error}
use agentic_temporal_wf.Base.Text.{Text, codes}
use agentic_temporal_wf.Base.Json.{
  Json, string, array, object, end, get, index, first, has_key, truthy,
}
use agentic_temporal_wf.Models.{
  Pydantic, valid, PrRef, GitHubEvent, EventKind, pr_opened, pr_synchronize, review_comment,
  check_suite_completed,
}

-- `PRRef(owner=..., repo=..., number=..., head_sha=..., head_ref=...)`
unfoldable pub make_pr : Pydantic → Json → Json → Json → Json → Json → Outcome PrRef
make_pr v owner repo n sha ref = do
  o ← valid (v.str_of owner)
  r ← valid (v.str_of repo)
  k ← valid (v.int_of n)
  s ← valid (v.str_of sha)
  f ← valid (v.str_of ref)
  returns (record { owner = o; repo = r; number = k; head_sha = s; head_ref = f })

-- `payload["repository"]["owner"]["login"]` and `payload["repository"]["name"]`
unfoldable pub owner_of : Json → Outcome Json
unfolding index
owner_of payload = do
  repository ← index payload (codes "repository")
  owner ← index repository (codes "owner")
  index owner (codes "login")

unfoldable pub name_of : Json → Outcome Json
unfolding index
name_of payload = do
  repository ← index payload (codes "repository")
  index repository (codes "name")

-- The reference whose head stands in the node of the pull request.
unfoldable pub pr_of_node : Pydantic → Json → Json → Outcome PrRef
unfolding owner_of name_of index make_pr
pr_of_node v payload node = do
  owner ← owner_of payload
  repo ← name_of payload
  n ← index node (codes "number")
  head ← index node (codes "head")
  sha ← index head (codes "sha")
  head' ← index node (codes "head")
  ref ← index head' (codes "ref")
  make_pr v owner repo n sha ref

-- `{"opened": "pr_opened", "synchronize": "pr_synchronize"}.get(action)`
unfoldable pub kind_of : Option Json → Outcome (Option EventKind)
kind_of (some (string s)) = returns (
    if s == codes "opened"
    then some pr_opened
    else if s == codes "synchronize"
    then some pr_synchronize
    else none)
kind_of (some (array _)) = raises type_error
kind_of (some (object _)) = raises type_error
kind_of _ = returns none

abbrev pub is_text : Text → Option Json → Bool
is_text t (some (string s)) = s == t
is_text t _ = false

abbrev Projected : Type 0
Projected = Outcome (Option (PrRef × EventKind))

unfoldable pub project_pull_request : Pydantic → Json → Projected
unfolding get kind_of index pr_of_node
project_pull_request v payload = do
  action ← get payload (codes "action")
  kind ← kind_of action
  elim kind [
    | none ↦ returns none
    | some k ↦ do
      node ← index payload (codes "pull_request")
      pr ← pr_of_node v payload node
      returns (some (pr, k))
  ]

-- These events are dropped, whether or not the issue is a pull request.
unfoldable pub project_issue_comment : Json → Projected
unfolding get has_key
project_issue_comment payload = do
  issue ← get payload (codes "issue")
  _ ← has_key (get_or issue (object end)) (codes "pull_request")
  returns none

unfoldable pub project_review_comment : Pydantic → Json → Projected
unfolding get pr_of_node
project_review_comment v payload = do
  node ← get payload (codes "pull_request")
  pr ← pr_of_node v payload (get_or node (object end))
  returns (some (pr, review_comment))

-- `cs.get("pull_requests") or []`, where what follows needs the first of them.
abbrev pub or_none : Option Json → Option Json
or_none none = none
or_none (some v) = if truthy v then some v else none

unfoldable pub project_check_suite : Pydantic → Json → Projected
unfolding get index first truthy owner_of name_of make_pr
project_check_suite v payload = do
  action ← get payload (codes "action")
  if is_text (codes "completed") action
      then (do
        suite ← index payload (codes "check_suite")
        found ← get suite (codes "pull_requests")
        elim (or_none found) [
          | none ↦ returns none
          | some prs ↦ do
            node ← first prs
            owner ← owner_of payload
            repo ← name_of payload
            n ← index node (codes "number")
            sha ← index suite (codes "head_sha")
            ref ← index suite (codes "head_branch")
            pr ← make_pr v owner repo n sha ref
            returns (some (pr, check_suite_completed))
        ])
      else returns none

unfoldable pub project_kind : Pydantic → Text → Json → Projected
unfolding project_pull_request project_issue_comment project_review_comment project_check_suite
project_kind v event payload =
    if event == codes "pull_request"
    then project_pull_request v payload
    else if event == codes "issue_comment"
    then project_issue_comment payload
    else if event == codes "pull_request_review_comment"
    then project_review_comment v payload
    else if event == codes "check_suite"
    then project_check_suite v payload
    else returns none

-- `_project_event`
unfoldable pub project_event :
    Pydantic → Text → Json → Text → Outcome (Option (PrRef × GitHubEvent))
unfolding project_kind
project_event v event payload delivery_id = do
  projected ← project_kind v event payload
  elim projected [
    | none ↦ returns none
    | some (pr, kind) ↦
        returns (some (pr, record { kind = kind; delivery_id = delivery_id; payload = payload }))
  ]
