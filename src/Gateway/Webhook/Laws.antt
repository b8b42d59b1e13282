-- ===== src/Gateway/Webhook/Laws.antt =====
-- src/gateway/app.py: the requests of `webhook` and what it sends for them.
use agentic_temporal_wf.Base.{true, false, some, List, [], ◌∷◌, ◌⊎◌, inl, inr, Bool-cases}
use agentic_temporal_wf.Base.{
  text_eq, contains, get_or, ◌≡◌, refl, ◌∙◌, ap, arith, Option-cases, Outcome-cases,
}
use agentic_temporal_wf.Base.{returns, >>=-eq-returns}
use agentic_temporal_wf.Base.Text.{Text, codes, show}
use agentic_temporal_wf.Base.Json.{
  Json, format, null, boolean, number, string, array, object, index,
}
use agentic_temporal_wf.Allowlist.{from_env, env_items, check}
use agentic_temporal_wf.Gateway.Command.{ApprovalCommand, is_approval}
use agentic_temporal_wf.Gateway.Project.{project_event, owner_of, name_of}
use agentic_temporal_wf.Gateway.Signature.{verify}
use agentic_temporal_wf.Gateway.Webhook.{
  Settings, Externals, WebhookRequest, signal_decision, start_workflow, Response, answer, format,
  workflow_id, is_approver, allowed_or_403, comment_login, handle_command, is_own_commit,
  handle_event, find_command, payload_of, webhook,
}
use agentic_temporal_wf.Models.{PrRef, GitHubEvent}

-- A repository that `ALLOWED_REPOS` lists.
abbrev pub Listed : Settings → Text → Text → Type 0
Listed env owner repo = check (from_env env.allowed_repos) owner repo ≡ returns tt

-- The answer started a workflow: for the pull request that the payload is about, which is in a
-- listed repository, and whose head is not a commit of the agent's own.
pub record Started (x : Externals) (env : Settings) (request : WebhookRequest) (payload : Json)
    (r : Response) : Type 0 where
  pub pr : PrRef
  pub event : GitHubEvent
  pub projected :
      project_event x.pydantic request.event payload request.delivery ≡ returns (some (pr, event))
  pub listed : Listed env pr.owner pr.repo
  pub not_own : is_own_commit x pr event ≡ false
  pub accepted : r.status ≡ 202
  pub one_call :
      r.sent ≡ start_workflow (workflow_id pr.owner pr.repo (show pr.number)) pr event ∷ []

-- The answer sent a decision: the command of the comment, by an approver, to the workflow of the
-- pull request that was commented on, in a listed repository.
pub record Decided (x : Externals) (env : Settings) (request : WebhookRequest) (payload : Json)
    (r : Response) : Type 0 where
  pub command : ApprovalCommand
  pub issue : Json
  pub owner : Json
  pub repo : Json
  pub n : Json
  pub login : Text
  pub found : find_command request payload ≡ returns (some (command, issue))
  pub written_by : comment_login payload ≡ returns (string login)
  pub approver : contains (env_items env.approver_logins) login ≡ true
  pub of_owner : owner_of payload ≡ returns owner
  pub of_repo : name_of payload ≡ returns repo
  pub of_number : index issue (codes "number") ≡ returns n
  pub listed : Listed env (format x.repr owner) (format x.repr repo)
  pub accepted : r.status ≡ 202
  pub one_call :
      r.sent
      ≡ signal_decision
          (workflow_id (format x.repr owner) (format x.repr repo) (format x.repr n))
          command.approval_id
          (is_approval command)
          (get_or command.reason [])
        ∷ []

-- The answer sent nothing: unauthorized, forbidden, or nothing to do.
abbrev pub Refused : Response → Type 0
Refused r = (r ≡ answer 401) ⊎ (r ≡ answer 403) ⊎ (r ≡ answer 204)

is_approver-text :
    (approvers : List Text) (login : Json)
    → is_approver approvers login ≡ returns true
    → (t : Text) × (login ≡ string t) × (contains approvers t ≡ true)
unfolding is_approver
is_approver-text approvers (string t) e = (t, refl, cc)
is_approver-text approvers (array _) e = cc
is_approver-text approvers (object _) e = cc
is_approver-text approvers null e = cc
is_approver-text approvers (boolean _) e = cc
is_approver-text approvers (number _) e = cc

allowed_or_403-cases :
    (env : Settings) (owner repo : Text) (response r : Response)
    → allowed_or_403 env owner repo response ≡ returns r
    → (r ≡ answer 403) ⊎ ((Listed env owner repo) × (r ≡ response))
unfolding allowed_or_403
allowed_or_403-cases env owner repo response r e =
    elim (Outcome-cases (check (from_env env.allowed_repos) owner repo)) [
      | inl (_, ok) ↦ inr (ok, ground (arith, ok))
      | inr (_, bad) ↦ inl (ground (arith, bad))
    ]

handle_event-sent :
    (x : Externals) (env : Settings) (request : WebhookRequest) (payload : Json) (r : Response)
    → handle_event x env request payload ≡ returns r
    → Refused r ⊎ Started x env request payload r
unfolding handle_event
handle_event-sent x env request payload r e =
    let (found, e1, e2) =
      >>=-eq-returns (project_event x.pydantic request.event payload request.delivery) _ e in
    elim (Option-cases found) [
      | inl nothing ↦ inl (inr (inr (ground (arith, nothing, e2))))
      | inr ((pr, event), there) ↦
          elim (allowed_or_403-cases env pr.owner pr.repo _ r (rw there at e2)) [
            | inl bad ↦ inl (inr (inl bad))
            | inr (listed, e3) ↦ elim (Bool-cases (is_own_commit x pr event)) [
              | inl own ↦ inl (inr (inr (ground (arith, own, e3))))
              | inr other ↦ inr (record {
                pr = pr;
                event = event;
                projected = rw there at e1;
                listed = listed;
                not_own = other;
                accepted = ground (arith, other, e3);
                one_call = ground (arith, other, e3);
              })
            ]
          ]
    ]

handle_command-sent :
    (x : Externals) (env : Settings) (request : WebhookRequest) (payload issue : Json)
    (command : ApprovalCommand) (r : Response)
    → find_command request payload ≡ returns (some (command, issue))
    → handle_command x env payload issue command ≡ returns r
    → Refused r ⊎ Decided x env request payload r
unfolding handle_command
handle_command-sent x env request payload issue command r found e =
    let (login, written, e1) = >>=-eq-returns (comment_login payload) _ e in
    let (known, judged, e2) =
      >>=-eq-returns (is_approver (env_items env.approver_logins) login) _ e1 in
    elim (Bool-cases known) [
      | inr stranger ↦ inl (inr (inl (ground (arith, stranger, e2))))
      | inl member ↦
          let (t, is_t, approver) =
            is_approver-text (env_items env.approver_logins) login (judged ∙ ap returns member) in
          let (owner, o1, e3) = >>=-eq-returns (owner_of payload) _ (rw member at e2) in
          let (repo, r1, e4) = >>=-eq-returns (name_of payload) _ e3 in
          elim (Outcome-cases
            (check (from_env env.allowed_repos) (format x.repr owner) (format x.repr repo))) [
              | inr (_, bad) ↦ inl (inr (inl (ground (arith, bad, e4))))
              | inl (_, listed) ↦
                  let (n, n1, e5) =
                    >>=-eq-returns (index issue (codes "number")) _ (rw listed at e4) in
                  inr (record {
                    command = command;
                    issue = issue;
                    owner = owner;
                    repo = repo;
                    n = n;
                    login = t;
                    found = found;
                    written_by = rw is_t at written;
                    approver = approver;
                    of_owner = o1;
                    of_repo = r1;
                    of_number = n1;
                    listed = listed;
                    accepted = ground (arith, e5);
                    one_call = ground (arith, e5);
                  })
            ]
    ]

-- Whatever the gateway answers to a request: with a signature that does not verify it is 401, and
-- nothing is sent; else nothing is sent and it is 401, 403 or 204, or it is 202, and a single call
-- was sent: a workflow started for a pull request that the payload projects to, whose head is not
-- a commit of the agent; or the decision that the comment commands, by a login which
-- `APPROVER_LOGINS` lists. In both cases the repository is one that `ALLOWED_REPOS` lists.
pub webhook-sent :
    (x : Externals) (env : Settings) (request : WebhookRequest) (r : Response)
    → webhook x env request ≡ returns r
    → ((verify x.hmac_hexdigest env.webhook_secret request.body request.signature ≡ returns false)
        × (r ≡ answer 401))
      ⊎ ((verify x.hmac_hexdigest env.webhook_secret request.body request.signature ≡ returns true)
          × ((payload : Json) × (payload_of x request.body ≡ returns payload)
              × (Refused r ⊎ Started x env request payload r ⊎ Decided x env request payload r)))
unfolding webhook
webhook-sent x env request r e =
    let (verified, v1, e1) =
      >>=-eq-returns (verify x.hmac_hexdigest env.webhook_secret request.body request.signature) _
        e in
    elim (Bool-cases verified) [
      | inr bad ↦ inl (v1 ∙ ap returns bad, ground (arith, bad, e1))
      | inl good ↦
          let (payload, p1, e2) = >>=-eq-returns (payload_of x request.body) _ (rw good at e1) in
          let (found, f1, e3) = >>=-eq-returns (find_command request payload) _ e2 in
          inr (
            v1 ∙ ap returns good,
            (
              payload,
              p1,
              elim (Option-cases found) [
                | inl nothing ↦
                    elim (handle_event-sent x env request payload r (rw nothing at e3)) [
                      | inl refused ↦ inl refused
                      | inr started ↦ inr (inl started)
                    ]
                | inr ((command, issue), there) ↦
                    elim (handle_command-sent x env request payload issue command r
                      (f1 ∙ ap returns there) (rw there at e3)) [
                        | inl refused ↦ inl refused
                        | inr decided ↦ inr (inr decided)
                      ]
              ],
            ),
          )
    ]
