-- ===== src/Agent/Options/Laws.antt =====
-- src/agents/pr_fixer.py: what the options of the agent depend on.
use agentic_temporal_wf.Base.{◌≡◌, refl, text_eq, Outcome-cases, inl, inr}
use agentic_temporal_wf.Base.Dict.{lookup}
use agentic_temporal_wf.Base.Text.{Text, codes}
use agentic_temporal_wf.Agent.Options.{Environ, environ_at, build_options}

-- The same value, or none, in two environments.
abbrev pub Same : Text → Environ → Environ → Type 0
Same name environ other = lookup name environ ≡ lookup name other

-- The environment variables that the options are made of.
abbrev pub Agree : Environ → Environ → Type 0
Agree environ other =
    Same (codes "RUN_CAPABILITY_TOKEN") environ other
    × Same (codes "CAPABILITY_MCP_URL") environ other
    × Same (codes "SANDBOX_EGRESS_PROXY_URL") environ other
    × Same (codes "ANTHROPIC_BASE_URL") environ other
    × Same (codes "OTEL_EXPORTER_OTLP_ENDPOINT") environ other

environ_at-Same :
    (name : Text) (environ other : Environ)
    → Same name environ other
    → environ_at environ name ≡ environ_at other name
unfolding environ_at
environ_at-Same name environ other same = rw (environ_at, same) refl

-- Two environments that agree on the token of the run, the URLs of the broker, the proxy and the
-- model, and the endpoint of the telemetry give the same options or the same error: no
-- other variable, such as a key or a token of the platform, reaches the agent by its options.
pub build_options-variables :
    (environ other : Environ) → Agree environ other → build_options environ ≡ build_options other
unfolding build_options
build_options-variables environ other same =
    let token = environ_at-Same (codes "RUN_CAPABILITY_TOKEN") environ other same.0 in
    elim (Outcome-cases (environ_at other (codes "RUN_CAPABILITY_TOKEN"))) [
      | inr (e, missing) ↦ rw (token, missing) refl
      | inl (run_token, given) ↦ rw (token, given, same.1, same.2, same.3, same.4) refl
    ]
