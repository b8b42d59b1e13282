-- ===== src/Tests/Gateway.antt =====
-- The theorems on the gateway, the allowlist and the status at concrete requests.
use agentic_temporal_wf.Base.{ℕ}
use agentic_temporal_wf.Base.{
  ◌↔◌, ◌⊎◌, true, false, Option, none, some, [], ◌∷◌, ◌++◌, ◌≡◌, refl, contains, text_eq,
  ℕ_discrete, arith, returns, raises, repo_denied,
}
use agentic_temporal_wf.Base.Text.{Text, codes, show, is_space, strip, join}
use agentic_temporal_wf.Base.Regex.{dot}
use agentic_temporal_wf.Base.Json.{Json, object, end, field, string, number, index}
use agentic_temporal_wf.Allowlist.{from_env, check, slug}
use agentic_temporal_wf.Allowlist.Laws.{IsItem, check-listed}
use agentic_temporal_wf.Gateway.Command.{match_command}
use agentic_temporal_wf.Gateway.Command.Laws.{IsId, match_command-reply}
use agentic_temporal_wf.Gateway.Command.Sound.{IsCommand, match_command-IsCommand}
use agentic_temporal_wf.Gateway.Project.{project_event}
use agentic_temporal_wf.Models.{Pydantic, IsPydantic}
use agentic_temporal_wf.Gateway.Signature.{Hmac, verify, prefix, is_ascii, verify-true}
use agentic_temporal_wf.Workflow.Keys.{is_hex}
use agentic_temporal_wf.Gateway.Trigger.{build_payload, base_repo}
use agentic_temporal_wf.Gateway.Trigger.Laws.{Describes, build_payload-project_event}
use agentic_temporal_wf.Gateway.Webhook.{
  Settings, Externals, WebhookRequest, Response, answer, webhook, payload_of, signal_decision,
}
use agentic_temporal_wf.Gateway.Webhook.Laws.{Refused, Started, Decided, webhook-sent}
use agentic_temporal_wf.Lifecycle.Status.{response, comment_request, post_status}
use agentic_temporal_wf.Lifecycle.Status.Laws.{forget_ids, update_of, post_status-one_comment}
use agentic_temporal_wf.Models.{WorkflowState, pr_opened}
use agentic_temporal_wf.Workflow.{create, from_pr}
use agentic_temporal_wf.Tests.Data.{pr, digest, comment_reply, check_reply}

abbrev hmac : Hmac
hmac secret body = digest (secret ++ body)

abbrev signed : Option Text
signed = some (prefix ++ hmac (codes "s") (1 ∷ 2 ∷ []))

verify-true_example :
    (verify hmac (codes "s") (1 ∷ 2 ∷ []) signed ≡ returns true)
    ↔ (signed ≡ some (prefix ++ hmac (codes "s") (1 ∷ 2 ∷ [])))
unfolding is_ascii
verify-true_example = verify-true hmac (codes "s") (1 ∷ 2 ∷ []) signed refl

abbrev pub id : Text
id = codes "0123456789abcdef"

id-IsId : IsId id
unfolding is_hex text_eq
id-IsId = record { hex = refl; at_least = omega arith; at_most = omega arith }

match_command-reply_example :
    (match_command (codes "/autofix approve " ++ id)
      ≡ some (record { word = codes "approve"; approval_id = id; reason = none }))
    × (match_command (codes "/autofix deny " ++ (id ++ (codes " " ++ codes "no")))
        ≡ some (record { word = codes "deny"; approval_id = id; reason = some (codes "no") }))
unfolding is_space ℕ_discrete dot
match_command-reply_example = match_command-reply id b'n' (codes "o") id-IsId refl refl

shouted :
    match_command (codes " /AutoFix  DENY " ++ id ++ codes " later ")
    ≡ some (record { word = codes "DENY"; approval_id = id; reason = some (codes "later ") })
unfolding match_command ℕ_discrete
shouted = refl

match_command-IsCommand_example :
    IsCommand (record { word = codes "DENY"; approval_id = id; reason = some (codes "later ") })
match_command-IsCommand_example =
    match_command-IsCommand (codes " /AutoFix  DENY " ++ id ++ codes " later ") shouted

repo-IsItem : IsItem (codes "o/r")
unfolding strip ℕ_discrete
repo-IsItem = record { no_comma = refl; filled = refl; stripped = refl }

check-listed_example :
    ((check
          (from_env (some (join (codes ",") (codes "o/r" ∷ codes "o/r" ∷ []))))
          (codes "o")
          (codes "r")
        ≡ returns tt)
      ↔ (contains (codes "o/r" ∷ codes "o/r" ∷ []) (slug (codes "o") (codes "r")) ≡ true))
    × ((check
            (from_env (some (join (codes ",") (codes "o/r" ∷ codes "o/r" ∷ []))))
            (codes "o")
            (codes "r")
          ≡ raises repo_denied)
        ↔ (contains (codes "o/r" ∷ codes "o/r" ∷ []) (slug (codes "o") (codes "r")) ≡ false))
    × (check (from_env none) (codes "o") (codes "r") ≡ raises repo_denied)
    × (check (from_env (some [])) (codes "o") (codes "r") ≡ raises repo_denied)
check-listed_example =
    check-listed (codes "o") (codes "r") (codes "o/r") (codes "o/r" ∷ [])
      (repo-IsItem, (repo-IsItem, tt))

-- A validation that takes just the values of the type.
abbrev pub pydantic : Pydantic
pydantic = record {
  str_of = λ v. elim v [ string t ↦ some t | _ ↦ none ];
  int_of = λ v. elim v [ number n ↦ some n | _ ↦ none ];
}

pub pydantic-IsPydantic : IsPydantic pydantic
pydantic-IsPydantic = record { str_of-string = λ t. refl; int_of-number = λ n. refl }

abbrev pub node : Text → Json → Json
node k v = object (field k v end)

-- The pull request as the API describes it.
abbrev pub api_pr : Json
api_pr = object (
    field (codes "number") (number 7) (
      field (codes "head")
        (object (
          field (codes "sha") (string (codes "abc"))
            (field (codes "ref") (string (codes "fix")) end)))
        (field (codes "base")
          (node (codes "repo") (
            object (
              field (codes "name") (string (codes "r"))
                (field (codes "owner") (node (codes "login") (string (codes "o"))) end))))
          end)))

pub api_pr-Describes : Describes api_pr pr
unfolding index base_repo text_eq
api_pr-Describes = record {
  head =
      object (
        field (codes "sha") (string (codes "abc"))
          (field (codes "ref") (string (codes "fix")) end));
  repo = object (
      field (codes "name") (string (codes "r"))
        (field (codes "owner") (node (codes "login") (string (codes "o"))) end));
  owner = node (codes "login") (string (codes "o"));
  has_number = refl;
  has_head = refl;
  has_sha = refl;
  has_ref = refl;
  has_repo = refl;
  has_name = refl;
  has_owner = refl;
  has_login = refl;
}

build_payload-project_event_example :
    (payload : Json) × (build_payload api_pr ≡ returns payload)
    × (project_event pydantic (codes "pull_request") payload (codes "d1")
        ≡ returns
            (some (pr, record { kind = pr_opened; delivery_id = codes "d1"; payload = payload })))
build_payload-project_event_example =
    build_payload-project_event pydantic api_pr pr (codes "d1") pydantic-IsPydantic api_pr-Describes

abbrev fresh : WorkflowState
fresh = (create (from_pr pr)).state

abbrev posted_state : WorkflowState
posted_state = record fresh { posted_status_comment_id = some 11; last_check_run_id = some 12 }

posted : post_status comment_reply check_reply fresh ≡ returns posted_state
unfolding post_status create ℕ_discrete
posted = refl

post_status-one_comment_example :
    ((id : ℕ) × (comment_request posted_state ≡ update_of fresh.pr id)
      × ((fresh.posted_status_comment_id ≡ some id)
          ⊎ ((fresh.posted_status_comment_id ≡ none)
              × ((status : ℕ) × (comment_reply ≡ response status (some id))))))
    × (forget_ids posted_state ≡ forget_ids fresh)
post_status-one_comment_example = post_status-one_comment comment_reply check_reply fresh posted

-- A webhook for the listed repository, with the payload that the body stands for.
abbrev comment_payload : Json
comment_payload = object (
    field (codes "action") (string (codes "created")) (
      field (codes "issue")
        (object (field (codes "number") (number 7) (field (codes "pull_request") (object end) end)))
        (field (codes "comment")
          (object (
            field (codes "body") (string (codes "/autofix approve " ++ id))
              (field (codes "user") (node (codes "login") (string (codes "rev"))) end)))
          (field (codes "repository")
            (object (
              field (codes "name") (string (codes "r"))
                (field (codes "owner") (node (codes "login") (string (codes "o"))) end)))
            end))))

abbrev pub externals : Externals
externals = record {
  hmac_hexdigest = hmac;
  json_loads = λ _. some comment_payload;
  pydantic = pydantic;
  repr = λ _. codes "...";
  fetch_commit_message = λ _ _ _. codes "fix";
}

abbrev settings : Settings
settings = record {
  webhook_secret = codes "s";
  allowed_repos = some (codes "o/r");
  approver_logins = some (codes "rev, boss");
}

abbrev comment_webhook : WebhookRequest
comment_webhook = record {
  event = codes "issue_comment";
  delivery = codes "d3";
  signature = signed;
  body = 1 ∷ 2 ∷ [];
}

abbrev accepted : Response
accepted = record {
  status = 202;
  sent = signal_decision (codes "pr-autofix-o-r-7") id true [] ∷ [];
}

comment_accepted : webhook externals settings comment_webhook ≡ returns accepted
unfolding webhook ℕ_discrete text_eq strip show
comment_accepted = refl

webhook-sent_example :
    ((verify hmac (codes "s") (1 ∷ 2 ∷ []) signed ≡ returns false) × (accepted ≡ answer 401))
    ⊎ ((verify hmac (codes "s") (1 ∷ 2 ∷ []) signed ≡ returns true)
        × ((payload : Json) × (payload_of externals (1 ∷ 2 ∷ []) ≡ returns payload)
            × (Refused accepted
                ⊎ Started externals settings comment_webhook payload accepted
                ⊎ Decided externals settings comment_webhook payload accepted)))
webhook-sent_example = webhook-sent externals settings comment_webhook accepted comment_accepted
