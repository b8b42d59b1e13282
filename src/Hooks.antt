-- ===== src/Hooks.antt =====
-- plugins/tf-guardrails/hooks and plugins/tf-mitigations/hooks: the programs that the CLI asks
-- before each tool call of the agent.
pub mod Restrict
pub mod Secrets
use agentic_temporal_wf.Base.{Option, none, some, [], if◌then◌else◌}
use agentic_temporal_wf.Base.Text.{Text}
use agentic_temporal_wf.Base.Json.{Json, string, truthy}

-- What the CLI is told: to let the call through, or to refuse it with a reason.
pub data Decision : Type 0 where
  allow : Decision
  deny : Text → Decision

-- `json.loads`, with `none` for a `JSONDecodeError`, and the texts of values and exceptions.
pub record Runtime : Type 0 where
  pub json_loads : Text → Option Json
  pub repr : Json → Text
  pub json_error : Text → Text

-- `v or ""` for what `get` gave.
unfoldable pub or_blank : Option Json → Json
unfolding truthy
or_blank none = string []
or_blank (some v) = if truthy v then v else string []
