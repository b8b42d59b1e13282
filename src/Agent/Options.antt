-- ===== src/Agent/Options.antt =====
-- src/agents/pr_fixer.py and src/tools/github_mcp.py: the options of the agent's SDK. The text of
-- the instructions and the server of the `repo` tools stand for themselves.
pub mod Laws
use agentic_temporal_wf.Base.{
  Bool, true, false, Option, none, some, List, [], ◌∷◌, ◌++◌, if◌then◌else◌, get_or, text_eq,
  Outcome, returns, raises, ◌>>=◌, key_error,
}
use agentic_temporal_wf.Base.Dict.{Dict, lookup}
use agentic_temporal_wf.Base.Text.{Text, codes, nonempty, text_or}

abbrev pub Environ : Type 0
Environ = Dict Text Text

-- `os.environ[name]`
unfoldable pub environ_at : Environ → Text → Outcome Text
environ_at environ name = elim (lookup name environ) [
  | none ↦ raises key_error
  | some v ↦ returns v
]

-- The configuration of a remote MCP server over HTTP.
pub record HttpServer : Type 0 where
  pub url : Text
  pub authorization : Text

-- `build_github_mcp_config`, with the arguments that it may be given.
unfoldable pub build_github_mcp_config : Environ → Option Text → Option Text → Outcome HttpServer
unfolding environ_at
build_github_mcp_config environ broker_url token =
    let url = text_or (get_or broker_url []) (
      get_or (lookup (codes "CAPABILITY_MCP_URL") environ)
        (codes "http://capability-broker:8443/mcp")) in
    let given = get_or token [] in
    (if nonempty given then returns given else environ_at environ (codes "RUN_CAPABILITY_TOKEN"))
    >>= λ run_token. returns (record { url = url; authorization = codes "Bearer " ++ run_token })

abbrev pub allowed_domains : List Text
allowed_domains = codes "capability-broker" ∷ codes "pypi.org" ∷ codes "files.pythonhosted.org" ∷ []

-- `SandboxSettings`
pub record SandboxSettings : Type 0 where
  pub enabled : Bool
  pub auto_allow_bash_if_sandboxed : Bool
  pub excluded_commands : List Text
  pub network_allowed_domains : List Text
  pub allow_local_binding : Bool

pub record Options : Type 0 where
  pub capability_server : HttpServer
  pub allowed_tools : List Text
  pub disallowed_tools : List Text
  pub permission_mode : Text
  pub sandbox : SandboxSettings
  pub plugins : List Text
  pub env : Environ

-- `cli_otel_env` for the value of `OTEL_EXPORTER_OTLP_ENDPOINT`.
unfoldable pub cli_otel_env : Option Text → Environ
cli_otel_env endpoint =
    let chosen = get_or endpoint [] in
    if nonempty chosen
    then (codes "CLAUDE_CODE_ENABLE_TELEMETRY", codes "1")
      ∷ (codes "CLAUDE_CODE_ENHANCED_TELEMETRY_BETA", codes "1")
      ∷ (codes "OTEL_TRACES_EXPORTER", codes "otlp")
      ∷ (codes "OTEL_EXPORTER_OTLP_PROTOCOL", codes "http/protobuf")
      ∷ (codes "OTEL_EXPORTER_OTLP_ENDPOINT", chosen)
      ∷ (codes "OTEL_SERVICE_NAME", codes "agent-temporal-autofix")
      ∷ (codes "OTEL_TRACES_EXPORT_INTERVAL", codes "1000")
      ∷ (codes "OTEL_METRIC_EXPORT_INTERVAL", codes "1000")
      ∷ (codes "OTEL_LOGS_EXPORT_INTERVAL", codes "1000")
      ∷ (codes "OTEL_LOG_USER_PROMPTS", codes "1")
      ∷ (codes "OTEL_LOG_TOOL_DETAILS", codes "1")
      ∷ (codes "OTEL_LOG_TOOL_CONTENT", codes "1")
      ∷ []
    else []

-- `build_options`. The names of `cli_otel_env` are not among the five before it.
unfoldable pub build_options : Environ → Outcome Options
unfolding environ_at build_github_mcp_config cli_otel_env
build_options environ = do
  let egress_proxy =
      get_or (lookup (codes "SANDBOX_EGRESS_PROXY_URL") environ) (codes "http://egress-proxy:8888")
  run_token ← environ_at environ (codes "RUN_CAPABILITY_TOKEN")
  server ← build_github_mcp_config environ none none
  returns (record {
    capability_server = server;
    allowed_tools =
        codes "Read"
        ∷ codes "Edit"
        ∷ codes "Grep"
        ∷ codes "Glob"
        ∷ codes "mcp__capability__*"
        ∷ codes "mcp__repo__*"
        ∷ [];
    disallowed_tools = codes "Bash" ∷ codes "Write" ∷ codes "WebFetch" ∷ [];
    permission_mode = codes "default";
    sandbox = record {
      enabled = true;
      auto_allow_bash_if_sandboxed = false;
      excluded_commands = codes "docker" ∷ codes "kubectl" ∷ codes "ssh" ∷ [];
      network_allowed_domains = allowed_domains;
      allow_local_binding = true;
    };
    plugins = codes "/plugins/tf-guardrails" ∷ codes "/plugins/tf-mitigations" ∷ [];
    env =
        ((codes "CLAUDE_CODE_MAX_RETRIES", codes "0")
          ∷ (codes "ANTHROPIC_API_KEY", run_token)
          ∷ (
            codes "ANTHROPIC_BASE_URL",
            get_or (lookup (codes "ANTHROPIC_BASE_URL") environ)
                (codes "http://capability-broker:8443/anthropic"),
          )
          ∷ (codes "HTTPS_PROXY", egress_proxy)
          ∷ (codes "HTTP_PROXY", egress_proxy)
          ∷ [])
        ++ cli_otel_env (lookup (codes "OTEL_EXPORTER_OTLP_ENDPOINT") environ);
  })
