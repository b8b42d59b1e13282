-- ===== src/Gateway/Trigger.antt =====
-- scripts/trigger_webhook.py: the client that sends the gateway a webhook of its own making.
pub mod Laws
use agentic_temporal_wf.Base.{Outcome, returns, ◌>>=◌}
use agentic_temporal_wf.Base.Text.{Text, codes}
use agentic_temporal_wf.Base.Json.{Json, Fields, string, object, end, field, index}

-- `pr["base"]["repo"]`
unfoldable pub base_repo : Json → Outcome Json
unfolding index
base_repo pr = do base ← index pr (codes "base"); index base (codes "repo")

abbrev pub node_payload : Json → Json → Json → Json
node_payload n sha ref = object (
    field (codes "number") n
      (field (codes "head") (object (field (codes "sha") sha (field (codes "ref") ref end))) end))

abbrev pub payload_with : Json → Json → Json → Json
payload_with node name login = object (
    field (codes "action") (string (codes "opened")) (
      field (codes "pull_request") node (
        field (codes "repository")
          (object (
            field (codes "name") name
              (field (codes "owner") (object (field (codes "login") login end)) end)))
          end)))

-- `build_payload`
unfoldable pub build_payload : Json → Outcome Json
unfolding index base_repo
build_payload pr = do
  n ← index pr (codes "number")
  head ← index pr (codes "head")
  sha ← index head (codes "sha")
  head' ← index pr (codes "head")
  ref ← index head' (codes "ref")
  repo ← base_repo pr
  name ← index repo (codes "name")
  repo' ← base_repo pr
  owner ← index repo' (codes "owner")
  login ← index owner (codes "login")
  returns (payload_with (node_payload n sha ref) name login)
