-- ===== src/Gateway/Trigger/Laws.antt =====
-- scripts/trigger_webhook.py and `_project_event` on its payload.
use agentic_temporal_wf.Base.{some, ◌≡◌, text_eq}
use agentic_temporal_wf.Base.{returns}
use agentic_temporal_wf.Base.Text.{Text, codes}
use agentic_temporal_wf.Base.Json.{Json, string, number, index}
use agentic_temporal_wf.Gateway.Trigger.{base_repo, build_payload, payload_with, node_payload}
use agentic_temporal_wf.Gateway.Project.{project_event}
use agentic_temporal_wf.Models.{Pydantic, IsPydantic}
use agentic_temporal_wf.Models.{PrRef, pr_opened}

-- A pull request as GitHub's API returns it, whose reference is `r`.
pub record Describes (pr : Json) (r : PrRef) : Type 0 where
  pub head : Json
  pub repo : Json
  pub owner : Json
  pub has_number : index pr (codes "number") ≡ returns (number r.number)
  pub has_head : index pr (codes "head") ≡ returns head
  pub has_sha : index head (codes "sha") ≡ returns (string r.head_sha)
  pub has_ref : index head (codes "ref") ≡ returns (string r.head_ref)
  pub has_repo : base_repo pr ≡ returns repo
  pub has_name : index repo (codes "name") ≡ returns (string r.repo)
  pub has_owner : index repo (codes "owner") ≡ returns owner
  pub has_login : index owner (codes "login") ≡ returns (string r.owner)

abbrev pub payload_for : PrRef → Json
payload_for r =
    payload_with (node_payload (number r.number) (string r.head_sha) (string r.head_ref))
      (string r.repo) (string r.owner)

pub built : (pr : Json) (r : PrRef) → Describes pr r → build_payload pr ≡ returns (payload_for r)
unfolding build_payload
built pr r d = rw (
  d.has_number, d.has_head, d.has_sha, d.has_ref, d.has_repo, d.has_name, d.has_owner, d.has_login,
)

pub projected :
    (v : Pydantic) (r : PrRef) (delivery : Text)
    → IsPydantic v
    → project_event v (codes "pull_request") (payload_for r) delivery
      ≡ returns
          (some (r, record { kind = pr_opened; delivery_id = delivery; payload = payload_for r }))
unfolding project_event text_eq
projected v r delivery ok = rw (
  ok.int_of-number r.number,
  ok.str_of-string r.owner,
  ok.str_of-string r.repo,
  ok.str_of-string r.head_sha,
  ok.str_of-string r.head_ref,
)

-- From a pull request that GitHub's API describes, the script builds a payload, and the gateway
-- projects that payload, as an event `pull_request`, to just that pull request with the kind
-- `pr_opened`.
pub build_payload-project_event :
    (v : Pydantic) (pr : Json) (r : PrRef) (delivery : Text)
    → IsPydantic v
    → Describes pr r
    → (payload : Json) × (build_payload pr ≡ returns payload)
      × (project_event v (codes "pull_request") payload delivery
          ≡ returns
              (some (r, record { kind = pr_opened; delivery_id = delivery; payload = payload })))
build_payload-project_event v pr r delivery ok d =
    (payload_for r, built pr r d, projected v r delivery ok)
