-- ===== src/Gateway/Webhook.antt =====
-- The handler of `POST /webhook`, and what it sends to the Temporal server.
pub mod Laws
use agentic_temporal_wf.Base.{
  ℕ, Bool, true, false, not, ◌&&◌, ◌||◌, Option, none, some, List, [], ◌∷◌, ◌++◌,
}
use agentic_temporal_wf.Base.{◌==◌, text_eq, contains, get_or, if◌then◌else◌, ⊤, ◌≡◌, refl, arith}
use agentic_temporal_wf.Base.{Outcome, returns, raises, ◌>>=◌, type_error, value_error}
use agentic_temporal_wf.Base.Text.{Text, codes, show, has_infix}
use agentic_temporal_wf.Base.Json.{
  Json, null, boolean, number, string, array, object, end, get, index, has_key, or_empty, format,
}
use agentic_temporal_wf.Allowlist.{RepoAllowlist, from_env, env_items, check, slug}
use agentic_temporal_wf.Gateway.Command.{ApprovalCommand, match_command, is_approval}
use agentic_temporal_wf.Gateway.Project.{project_event, owner_of, name_of, is_text}
use agentic_temporal_wf.Models.{Pydantic}
use agentic_temporal_wf.Gateway.Signature.{Hmac, verify}
use agentic_temporal_wf.Models.{PrRef, GitHubEvent, EventKind, pr_synchronize}

-- The settings: the arguments of `create_app` and the environment.
pub record Settings : Type 0 where
  pub webhook_secret : Text
  pub allowed_repos : Option Text
  pub approver_logins : Option Text

-- What the gateway calls and does not implement: the HMAC, `json.loads`, the validation of models,
-- `str` of a list or a dict, and GitHub's commit messages.
pub record Externals : Type 0 where
  pub hmac_hexdigest : Hmac
  pub json_loads : List ℕ → Option Json
  pub pydantic : Pydantic
  pub repr : Json → Text
  pub fetch_commit_message : Text → Text → Text → Text

pub record WebhookRequest : Type 0 where
  pub event : Text
  pub delivery : Text
  pub signature : Option Text
  pub body : List ℕ

pub data TemporalCall : Type 0 where
  -- `submit_approval_decision`, to the workflow of the given id
  signal_decision : Text → Text → Bool → Text → TemporalCall
  -- `start_workflow` with the `on_event` signal, under the given id
  start_workflow : Text → PrRef → GitHubEvent → TemporalCall

pub record Response : Type 0 where
  pub status : ℕ
  pub sent : List TemporalCall

abbrev pub answer : ℕ → Response
answer status = record { status = status; sent = [] }

unfoldable pub workflow_id : Text → Text → Text → Text
workflow_id owner repo n = codes "pr-autofix-" ++ owner ++ codes "-" ++ repo ++ codes "-" ++ n

-- `login not in approvers`, for a set of texts.
unfoldable pub is_approver : List Text → Json → Outcome Bool
is_approver approvers (string login) = returns (contains approvers login)
is_approver approvers (array _) = raises type_error
is_approver approvers (object _) = raises type_error
is_approver approvers _ = returns false

-- `RepoAllowlist.from_env().check(owner, repo)`, and its `RepoDenied` as a 403.
unfoldable pub allowed_or_403 : Settings → Text → Text → Response → Outcome Response
unfolding check from_env
allowed_or_403 env owner repo response = elim (check (from_env env.allowed_repos) owner repo) [
  | returns _ ↦ returns response
  | raises _ ↦ returns (answer 403)
]

-- `_APPROVAL_COMMAND.match(...)` of the comment's body, which must be a text.
unfoldable pub comment_command : Json → Outcome (Option ApprovalCommand)
unfolding get or_empty match_command
comment_command payload = do
  comment ← get payload (codes "comment")
  body ← get (or_empty comment) (codes "body")
  elim (get_or body (string [])) [ string s ↦ returns (match_command s) | _ ↦ raises type_error ]

-- `((payload.get("comment") or {}).get("user") or {}).get("login", "")`
unfoldable pub comment_login : Json → Outcome Json
unfolding get or_empty
comment_login payload = do
  comment ← get payload (codes "comment")
  user ← get (or_empty comment) (codes "user")
  login ← get (or_empty user) (codes "login")
  returns (get_or login (string []))

-- The branch of a command on a pull request.
unfoldable pub handle_command :
    Externals → Settings → Json → Json → ApprovalCommand → Outcome Response
unfolding comment_login is_approver env_items owner_of name_of index format check from_env
    is_approval workflow_id
handle_command x env payload issue command = do
  login ← comment_login payload
  known ← is_approver (env_items env.approver_logins) login
  if known
      then (do
        owner ← owner_of payload
        repo ← name_of payload
        elim (check (from_env env.allowed_repos) (format x.repr owner) (format x.repr repo)) [
          | raises _ ↦ returns (answer 403)
          | returns _ ↦ do
            n ← index issue (codes "number")
            returns (record {
              status = 202;
              sent =
                  signal_decision
                    (workflow_id (format x.repr owner) (format x.repr repo) (format x.repr n))
                    command.approval_id (is_approval command) (get_or command.reason [])
                  ∷ [];
            })
        ])
      else returns (answer 403)

abbrev is_synchronize : EventKind → Bool
is_synchronize pr_synchronize = true
is_synchronize _ = false

-- The self-trigger guard.
unfoldable pub is_own_commit : Externals → PrRef → GitHubEvent → Bool
unfolding has_infix
is_own_commit x pr event =
    is_synchronize event.kind
    && has_infix (x.fetch_commit_message pr.owner pr.repo pr.head_sha) (codes "[autofix-bot]")

-- From the projection to the end.
unfoldable pub handle_event : Externals → Settings → WebhookRequest → Json → Outcome Response
unfolding project_event allowed_or_403 is_own_commit workflow_id
handle_event x env request payload = do
  projected ← project_event x.pydantic request.event payload request.delivery
  elim projected [
    | none ↦ returns (answer 204)
    | some (pr, event) ↦ allowed_or_403 env pr.owner pr.repo (
        if is_own_commit x pr event then answer 204 else record {
          status = 202;
          sent = start_workflow (workflow_id pr.owner pr.repo (show pr.number)) pr event ∷ [];
        })
  ]

-- The command of a new comment on a pull request, with its issue.
unfoldable pub find_command : WebhookRequest → Json → Outcome (Option (ApprovalCommand × Json))
unfolding get or_empty comment_command has_key
find_command request payload =
    if request.event == codes "issue_comment"
    then (do
      action ← get payload (codes "action")
      if is_text (codes "created") action
          then (do
            issue ← get payload (codes "issue")
            command ← comment_command payload
            elim command [
              | none ↦ returns none
              | some c ↦ do
                on_pr ← has_key (or_empty issue) (codes "pull_request")
                returns (if on_pr then some (c, or_empty issue) else none)
            ])
          else returns none)
    else returns none

abbrev pub payload_of : Externals → List ℕ → Outcome Json
payload_of x [] = returns (object end)
payload_of x (b ∷ bs) = elim (x.json_loads (b ∷ bs)) [
  | none ↦ raises value_error
  | some v ↦ returns v
]

-- `webhook`
unfoldable pub webhook : Externals → Settings → WebhookRequest → Outcome Response
unfolding verify find_command handle_command handle_event
webhook x env request = do
  verified ← verify x.hmac_hexdigest env.webhook_secret request.body request.signature
  if verified
      then (do
        payload ← payload_of x request.body
        found ← find_command request payload
        elim found [
          | none ↦ handle_event x env request payload
          | some (command, issue) ↦ handle_command x env payload issue command
        ])
      else returns (answer 401)
