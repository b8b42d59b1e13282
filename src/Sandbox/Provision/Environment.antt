-- ===== src/Sandbox/Provision/Environment.antt =====
-- src/activities/sandbox.py: the names in `env_for_sandbox`.
use agentic_temporal_wf.Base.{
  false, Option, none, some, List, [], ◌∷◌, ◌++◌, ◌≡◌, refl, ◌∙◌, arith, ◌==◌, text_eq, contains,
  contains-append,
}
use agentic_temporal_wf.Base.Text.{Text, codes}
use agentic_temporal_wf.Base.Dict.{lookup, insert, lookup-insert}
use agentic_temporal_wf.Sandbox.Provision.{
  Environ, sandbox_environment, forwarded, insert_set, environ_set, environ_get, broker_url,
  sandbox_workdir, forward, proxied,
}

abbrev pub fixed_names : List Text
fixed_names =
    codes "RUN_CAPABILITY_TOKEN"
    ∷ codes "ANTHROPIC_BASE_URL"
    ∷ codes "CAPABILITY_MCP_URL"
    ∷ codes "AUTOFIX_WORKDIR"
    ∷ codes "AUTOFIX_WORKDIR_ID"
    ∷ []

abbrev pub telemetry_names : List Text
telemetry_names =
    codes "PHOENIX_COLLECTOR_ENDPOINT"
    ∷ codes "OTEL_EXPORTER_OTLP_ENDPOINT"
    ∷ codes "ARIZE_PROJECT"
    ∷ []

abbrev pub proxy_names : List Text
proxy_names =
    codes "HTTP_PROXY"
    ∷ codes "HTTPS_PROXY"
    ∷ codes "http_proxy"
    ∷ codes "https_proxy"
    ∷ codes "NO_PROXY"
    ∷ codes "no_proxy"
    ∷ []

module _ (name : Text) {v : Option Text} where
  insert-other :
      (key value : Text) (target : Environ)
      → (name == key) ≡ false
      → lookup name target ≡ v
      → lookup name (insert key value target) ≡ v
  insert-other key value target differs there =
      lookup-insert name key value target ∙ ground (arith, differs, there)

  insert_set-other :
      (key : Text) (value : Option Text) (target : Environ)
      → (name == key) ≡ false
      → lookup name target ≡ v
      → lookup name (insert_set key value target) ≡ v
  insert_set-other key none target differs there = there
  insert_set-other key (some value) target differs there =
      insert-other key value target differs there

  forward-other :
      (environ : Environ) (names : List Text) (target : Environ)
      → contains names name ≡ false
      → lookup name target ≡ v
      → lookup name (forward environ names target) ≡ v
  forward-other environ [] target other there = there
  forward-other environ (key ∷ names) target other there =
      forward-other environ names (insert_set key (environ_set environ key) target) (ground arith)
        (insert_set-other key (environ_set environ key) target (ground arith) there)

  proxied-other :
      (proxy : Option Text) (target : Environ)
      → contains proxy_names name ≡ false
      → lookup name target ≡ v
      → lookup name (proxied proxy target) ≡ v
  proxied-other none target other there = there
  proxied-other (some proxy) target other there =
      insert-other (codes "no_proxy") _ _ (ground arith) (
        insert-other (codes "NO_PROXY") _ _ (ground arith) (
          insert-other (codes "https_proxy") proxy _ (ground arith) (
            insert-other (codes "http_proxy") proxy _ (ground arith) (
              insert-other (codes "HTTPS_PROXY") proxy _ (ground arith)
                (insert-other (codes "HTTP_PROXY") proxy target (ground arith) there)))))

module _ (name : Text) where
  fixed-none :
      (a b c d e : Text)
      → contains fixed_names name ≡ false
      → lookup name (
          (codes "RUN_CAPABILITY_TOKEN", a)
          ∷ (codes "ANTHROPIC_BASE_URL", b)
          ∷ (codes "CAPABILITY_MCP_URL", c)
          ∷ (codes "AUTOFIX_WORKDIR", d)
          ∷ (codes "AUTOFIX_WORKDIR_ID", e)
          ∷ [])
        ≡ none
  unfolding lookup
  fixed-none a b c d e other = ground arith

-- The token that a sandbox is given.
pub sandbox_environment-token :
    (environ : Environ) (token workflow_id : Text)
    → lookup (codes "RUN_CAPABILITY_TOKEN") (sandbox_environment environ token workflow_id)
      ≡ some token
unfolding sandbox_environment text_eq lookup
sandbox_environment-token environ token workflow_id =
    let base : Environ =
      (codes "RUN_CAPABILITY_TOKEN", token)
      ∷ (
        codes "ANTHROPIC_BASE_URL",
        environ_get environ (codes "ANTHROPIC_RELAY_URL")
            (broker_url environ ++ codes "/anthropic"),
      )
      ∷ (
        codes "CAPABILITY_MCP_URL",
        environ_get environ (codes "CAPABILITY_MCP_URL") (broker_url environ ++ codes "/mcp"),
      )
      ∷ (codes "AUTOFIX_WORKDIR", sandbox_workdir)
      ∷ (codes "AUTOFIX_WORKDIR_ID", workflow_id)
      ∷ [] in
    proxied-other (codes "RUN_CAPABILITY_TOKEN")
      (environ_set environ (codes "SANDBOX_EGRESS_PROXY_URL")) (forward environ forwarded base) refl
      (forward-other (codes "RUN_CAPABILITY_TOKEN") environ forwarded base refl refl)

-- Whatever the worker's environment holds: a sandbox has no variable but the five that are made for
-- it, the three telemetry variables and the six of the proxy.
pub sandbox_environment-names :
    (environ : Environ) (token workflow_id name : Text)
    → contains (fixed_names ++ telemetry_names ++ proxy_names) name ≡ false
    → lookup name (sandbox_environment environ token workflow_id) ≡ none
unfolding sandbox_environment
sandbox_environment-names environ token workflow_id name other =
    let split = contains-append (fixed_names ++ telemetry_names) proxy_names name in
    let split' = contains-append fixed_names telemetry_names name in
    proxied-other name _ _ (ground (arith, other, split)) (
      forward-other name environ forwarded _ (ground (arith, other, split, split'))
        (fixed-none name _ _ _ _ _ (ground (arith, other, split, split'))))
