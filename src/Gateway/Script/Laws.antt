-- ===== src/Gateway/Script/Laws.antt =====
-- scripts/trigger_webhook.py and src/gateway/app.py: what the gateway does with the script's webhook.
use agentic_temporal_wf.Base.{
  ℕ, true, none, some, List, [], ◌∷◌, ◌++◌, ◌≡◌, refl, returns, ◌>>=◌, text_eq, ℕ_discrete,
}
use agentic_temporal_wf.Base.Text.{Text, codes, nonempty, show}
use agentic_temporal_wf.Base.Json.{Json}
use agentic_temporal_wf.Base.Json.Distinct.{distinct}
use agentic_temporal_wf.Models.{PrRef, GitHubEvent, pr_opened, IsPydantic}
use agentic_temporal_wf.Allowlist.{check, from_env}
use agentic_temporal_wf.Gateway.Signature.{is_ascii, prefix, verify-true}
use agentic_temporal_wf.Gateway.Trigger.Laws.{Describes, payload_for, built, projected}
use agentic_temporal_wf.Gateway.Webhook.{
  Settings, Externals, WebhookRequest, Response, start_workflow, workflow_id, payload_of,
  find_command, handle_event, webhook, allowed_or_403,
}
use agentic_temporal_wf.Base.Text.Decimal.{Decimal}
use agentic_temporal_wf.Gateway.Script.{script_request, parse_pr_url, printed_for, printed_id}

-- What the two sides share: digests are ASCII, and what one writes as JSON the other reads.
pub record IsWire (x : Externals) (encode : Json → List ℕ) : Type 0 where
  pub ascii : (secret : Text) (body : List ℕ) → is_ascii (x.hmac_hexdigest secret body) ≡ true
  pub read_back : (v : Json) → distinct v ≡ true → x.json_loads (encode v) ≡ some v
  pub some_bytes : (v : Json) → nonempty (encode v) ≡ true

payload_of-read :
    (x : Externals) (body : List ℕ) (v : Json)
    → nonempty body ≡ true
    → x.json_loads body ≡ some v
    → payload_of x body ≡ returns v
payload_of-read x [] v n e = cc
payload_of-read x (b ∷ bs) v n e = rw (payload_of, e) refl

-- The request for a payload.
abbrev request_for : Externals → (Json → List ℕ) → Text → Text → PrRef → WebhookRequest
request_for x encode secret delivery r = record {
  event = codes "pull_request";
  delivery = delivery;
  signature = some (prefix ++ x.hmac_hexdigest secret (encode (payload_for r)));
  body = encode (payload_for r);
}

-- The event that the gateway makes of it.
abbrev event_for : Text → PrRef → GitHubEvent
event_for delivery r = record { kind = pr_opened; delivery_id = delivery; payload = payload_for r }

distinct-payload_for : (r : PrRef) → distinct (payload_for r) ≡ true
unfolding distinct text_eq ℕ_discrete
distinct-payload_for r = refl

no_command :
    (x : Externals) (encode : Json → List ℕ) (secret delivery : Text) (r : PrRef) (payload : Json)
    → find_command (request_for x encode secret delivery r) payload ≡ returns none
unfolding find_command text_eq ℕ_discrete
no_command x encode secret delivery r payload = refl

allowed-listed :
    (env : Settings) (owner repo : Text) (response : Response)
    → check (from_env env.allowed_repos) owner repo ≡ returns tt
    → allowed_or_403 env owner repo response ≡ returns response
unfolding allowed_or_403
allowed-listed env owner repo response e = rw (allowed_or_403, e) refl

-- The gateway's answer.
abbrev started : Text → PrRef → Response
started delivery r = record {
  status = 202;
  sent = start_workflow (workflow_id r.owner r.repo (show r.number)) r (event_for delivery r) ∷ [];
}

handle_event-payload_for :
    (x : Externals) (env : Settings) (encode : Json → List ℕ) (secret delivery : Text) (r : PrRef)
    → IsPydantic x.pydantic
    → check (from_env env.allowed_repos) r.owner r.repo ≡ returns tt
    → handle_event x env (request_for x encode secret delivery r) (payload_for r)
      ≡ returns (started delivery r)
unfolding handle_event
handle_event-payload_for x env encode secret delivery r ok listed =
    rw
      (
        projected x.pydantic r delivery ok,
        allowed-listed env r.owner r.repo (started delivery r) listed,
      )
      refl

-- The script is called with a URL whose parts are the owner, the name and the number of a pull request
-- as GitHub's API describes it, and its repository is listed: the gateway accepts the webhook that
-- the script signs and sends with the secret of the gateway, answers 202, and starts one workflow,
-- with the event of its opening, whose id is `pr-autofix-` with the three parts; and the script
-- prints this id.
pub script_request-webhook :
    (x : Externals) (env : Settings) (encode : Json → List ℕ) (delivery : Text) (pr : Json)
    (r : PrRef) (value : Decimal) (url : Text)
    → parse_pr_url value url ≡ some (r.owner, r.repo, r.number)
    → IsPydantic x.pydantic
    → IsWire x encode
    → Describes pr r
    → check (from_env env.allowed_repos) r.owner r.repo ≡ returns tt
    → let id =
        codes "pr-autofix-" ++ r.owner ++ codes "-" ++ r.repo ++ codes "-" ++ show r.number in
      ((script_request x.hmac_hexdigest encode env.webhook_secret delivery pr >>= webhook x env)
        ≡ returns (record { status = 202; sent = start_workflow id r (event_for delivery r) ∷ [] }))
      × (printed_for value url ≡ some id)
unfolding script_request webhook printed_for printed_id workflow_id
script_request-webhook x env encode delivery pr r value url named ok wire d listed =
    let body = encode (payload_for r) in
    let signed =
      (verify-true x.hmac_hexdigest env.webhook_secret body
          (some (prefix ++ x.hmac_hexdigest env.webhook_secret body))
          (wire.ascii env.webhook_secret body)).1
        refl in
    let read =
      payload_of-read x body (payload_for r) (wire.some_bytes (payload_for r))
        (wire.read_back (payload_for r) (distinct-payload_for r)) in
    (
      rw
          (
            built pr r d,
            signed,
            read,
            no_command x encode env.webhook_secret delivery r (payload_for r),
            handle_event-payload_for x env encode env.webhook_secret delivery r ok listed,
          )
          refl,
      rw (printed_for, named) refl,
    )
