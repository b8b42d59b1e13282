-- ===== src/Tests/Broker.antt =====
-- The theorems on the broker at concrete requests.
use agentic_temporal_wf.Base.{ℕ}
use agentic_temporal_wf.Base.{
  ◌≤◌, ◌<◌, ◌↔◌, ◌⊎◌, true, false, Option, some, [], ◌∷◌, ◌≡◌, refl, All, length, contains, text_eq,
  ℕ_discrete, if◌then◌else◌, ◌==◌,
}
use agentic_temporal_wf.Base.{Exception, returns, raises, http_exception, unauthorized, forbidden}
use agentic_temporal_wf.Base.Text.{Text, codes, nonempty, strip}
use agentic_temporal_wf.Base.Dict.{lookup, insert}
use agentic_temporal_wf.Base.Json.{Json, object, end, field, string, number}
use agentic_temporal_wf.Broker.Registry.{
  Binding, Registry, Headers, judged, resolve, run_token, register_binding,
}
use agentic_temporal_wf.Broker.Registry.Laws.{resolve_lem, register_binding-guards, Asks}
use agentic_temporal_wf.Broker.Relay.{RelayRequest, Upstream, anthropic_relay}
use agentic_temporal_wf.Broker.Relay.Laws.{anthropic_relay-headers}
use agentic_temporal_wf.Broker.Mcp.{Backend, mcp}
use agentic_temporal_wf.Broker.Mcp.Bound.{Grants, Within, mcp-bound}
use agentic_temporal_wf.Sandbox.Provision.{granted}
use agentic_temporal_wf.Tests.Gateway.{pydantic}

abbrev binding : Binding
binding = record {
  workflow_id = codes "pr-autofix-o-r-7";
  repository = codes "o/r";
  pr_number = 7;
  workspace_path = codes "/w";
  capabilities = granted;
  expires_at = 100;
  iteration = 0;
}

abbrev token : Text
token = codes "abcdefghijklmnopqrstuvwxyz"

abbrev registry : Registry
registry = (token, binding) ∷ []

abbrev headers : Headers
headers = (codes "authorization", codes "Bearer abcdefghijklmnopqrstuvwxyz") ∷ []

resolve_lem_example :
    ((b : Binding)
      → (resolve 5 registry token (codes "source.read") ≡ returns b) ↔ (
          (lookup token registry ≡ some b)
          × (5 < b.expires_at)
          × (contains b.capabilities (codes "source.read") ≡ true)))
    × ((resolve 5 registry token (codes "source.read") ≡ raises (http_exception forbidden)) ↔ (
        (b : Binding) × (lookup token registry ≡ some b)
        × (5 < b.expires_at)
        × (contains b.capabilities (codes "source.read") ≡ false)))
    × ((resolve 5 registry token (codes "source.read") ≡ raises (http_exception unauthorized))
        ↔ ((b : Binding) → lookup token registry ≡ some b → b.expires_at ≤ 5))
resolve_lem_example = resolve_lem 5 registry token (codes "source.read")

abbrev registration : Json
registration =
    object (field (codes "token") (string token) (field (codes "binding") (number 0) end))

abbrev validate : Json → Option Binding
validate _ = some binding

registered_once :
    register_binding validate (codes "s") (codes "s") (some registration) [] ≡ returns registry
unfolding register_binding text_eq insert
registered_once = refl

register_binding-guards_example :
    (nonempty (codes "s") ≡ true)
    × (codes "s" ≡ codes "s")
    × ((v : Json) × (t : Text) × (b : Binding) × (some registration ≡ some v)
        × Asks validate v t b
        × (20 ≤ length t)
        × ((now : ℕ) (other capability : Text)
            → resolve now registry other capability ≡ (
                if other == t
                then judged now capability (some b)
                else resolve now [] other capability)))
register_binding-guards_example =
    register_binding-guards validate (codes "s") (codes "s") (some registration) [] registry
      registered_once

abbrev messages : RelayRequest
messages = record {
  method = codes "POST";
  path = codes "v1/messages";
  query = [];
  headers = headers;
  body = 1 ∷ [];
}

abbrev relayed : Upstream
relayed = record {
  method = codes "POST";
  url = codes "https://api.anthropic.com/v1/messages";
  params = [];
  headers =
      (codes "x-api-key", codes "key")
      ∷ (codes "anthropic-version", codes "2023-06-01")
      ∷ (codes "content-type", codes "application/json")
      ∷ [];
  content = 1 ∷ [];
}

relayed_once : anthropic_relay (codes "key") 5 registry messages ≡ returns relayed
unfolding anthropic_relay text_eq lookup strip ℕ_discrete
relayed_once = refl

-- The same request, with the token of the run where the sandbox would have a key.
abbrev keyed : RelayRequest
keyed = record messages { headers = (codes "x-api-key", codes "abcdefghijklmnopqrstuvwxyz") ∷ [] }

keyed_once : anthropic_relay (codes "key") 5 registry keyed ≡ returns relayed
unfolding anthropic_relay text_eq lookup strip ℕ_discrete
keyed_once = refl

anthropic_relay-headers_example :
    (relayed ≡ relayed) × (lookup (codes "x-api-key") relayed.headers ≡ some (codes "key"))
unfolding text_eq lookup ℕ_discrete
anthropic_relay-headers_example =
    anthropic_relay-headers (codes "key") 5 5 registry registry messages keyed relayed_once
      keyed_once refl refl refl refl refl refl refl

abbrev backend : Backend
backend = record {
  github = λ _. returns (object end);
  push = λ _ _. returns (object end);
  pydantic = pydantic;
  repr = λ _. codes "...";
  dumps = λ _. codes "{}";
}

-- A call of a tool, with an argument that names another repository.
abbrev call_message : Json
call_message = object (
    field (codes "method") (string (codes "tools/call")) (
      field (codes "params")
        (object (
          field (codes "name") (string (codes "get_pr_context")) (
            field (codes "arguments")
              (object (field (codes "repository") (string (codes "x/y")) end)) end)))
        end))

mcp-bound_example :
    (((mcp backend 6 registry headers 5 registry (some call_message)).calls ≡ [])
      × ((e : Exception) × ((mcp backend 6 registry headers 5 registry (some call_message)).result
            ≡ raises e)))
    ⊎ ((b : Binding) × Grants 5 registry (run_token headers) (codes "source.read") b
        × All
            (Within backend 6 registry headers b)
            (mcp backend 6 registry headers 5 registry (some call_message)).calls)
mcp-bound_example = mcp-bound backend 5 6 registry registry headers (some call_message)
