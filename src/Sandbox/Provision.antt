-- ===== src/Sandbox/Provision.antt =====
-- `provision_sandbox`: the token is registered with the broker, then the container is started.
pub mod Laws
pub mod Environment
use agentic_temporal_wf.Base.{
  ℕ, ◌+◌, Bool, true, false, not, ◌&&◌, ◌||◌, Option, none, some, List, [], ◌∷◌, ◌++◌,
  if◌then◌else◌, ◌==◌, nat_eq, text_eq, get_or, map,
}
use agentic_temporal_wf.Base.{Outcome, returns, raises, Exception, runtime_error, http_error, ⊤}
use agentic_temporal_wf.Base.Text.{Text, codes, nonempty, text_or, within}
use agentic_temporal_wf.Base.Dict.{Dict, lookup, insert}
use agentic_temporal_wf.Models.{PrRef, SandboxHandle, CapabilityBinding}
use agentic_temporal_wf.Broker.Registry.{Binding}

-- `c.isalnum()`; what holds beyond ASCII is an argument.
abbrev pub is_alnum : (ℕ → Bool) → ℕ → Bool
is_alnum beyond c =
    within b'0' b'9' c
    || within b'A' b'Z' c
    || within b'a' b'z' c
    || (not (within 0 127 c) && beyond c)

abbrev pub safe_code : (ℕ → Bool) → ℕ → ℕ
safe_code beyond c = if is_alnum beyond c || c == b'-' || c == b'_' || c == b'.' then c else b'-'

-- `_container_name`
unfoldable pub container_name : (ℕ → Bool) → Text → Text
container_name beyond workflow_id = codes "autofix-sbx-" ++ map (safe_code beyond) workflow_id

-- The worker's environment, `os.environ`.
abbrev pub Environ : Type 0
Environ = Dict Text Text

abbrev pub environ_get : Environ → Text → Text → Text
environ_get environ name default = get_or (lookup name environ) default

-- `environ.get(name)`, where an empty text counts as none.
abbrev pub environ_set : Environ → Text → Option Text
environ_set environ name = elim (lookup name environ) [
  | none ↦ none
  | some value ↦ if nonempty value then some value else none
]

-- `POST /bindings`
pub record Registration : Type 0 where
  pub url : Text
  pub secret : Text
  pub token : Text
  pub binding : Binding

pub record Mount : Type 0 where
  pub bind : Text
  pub mode : Text

-- The arguments of `containers.run`.
pub record RunOptions : Type 0 where
  pub name : Text
  pub command : List Text
  pub detach : Bool
  pub auto_remove : Bool
  pub mem_limit : Text
  pub nano_cpus : ℕ
  pub pids_limit : ℕ
  pub cap_drop : List Text
  pub security_opt : List Text
  -- By the directory on the host.
  pub volumes : Dict Text Mount
  pub network : Option Text
  pub environment : Dict Text Text

abbrev pub sandbox_workdir : Text
sandbox_workdir = codes "/work"

abbrev pub granted : List Text
granted = codes "model.invoke" ∷ codes "source.read" ∷ codes "changes.publish" ∷ []

-- The binding of the run, for 24 hours from `now` in seconds.
unfoldable pub binding_for : Text → Text → PrRef → ℕ → Binding
binding_for workflow_id host_workdir pr now = record {
  workflow_id = workflow_id;
  repository = pr.owner ++ codes "/" ++ pr.repo;
  pr_number = pr.number;
  workspace_path = host_workdir;
  capabilities = granted;
  expires_at = now + 86400;
  iteration = 0;
}

abbrev pub broker_url : Environ → Text
broker_url environ =
    environ_get environ (codes "CAPABILITY_BROKER_URL") (codes "http://capability-broker:8443")

abbrev pub forwarded : List Text
forwarded =
    codes "PHOENIX_COLLECTOR_ENDPOINT"
    ∷ codes "OTEL_EXPORTER_OTLP_ENDPOINT"
    ∷ codes "ARIZE_PROJECT"
    ∷ []

abbrev pub insert_set : Text → Option Text → Environ → Environ
insert_set name none target = target
insert_set name (some value) target = insert name value target

-- The variables that are forwarded where the worker has them.
abbrev pub forward : Environ → List Text → Environ → Environ
forward environ [] target = target
forward environ (name ∷ names) target =
    forward environ names (insert_set name (environ_set environ name) target)

abbrev no_proxy : Text
no_proxy = codes "localhost,127.0.0.1,egress-proxy,capability-broker,phoenix,otel-collector"

abbrev pub proxied : Option Text → Environ → Environ
proxied none target = target
proxied (some proxy) target = insert (codes "no_proxy") no_proxy (
    insert (codes "NO_PROXY") no_proxy (
      insert (codes "https_proxy") proxy (
        insert (codes "http_proxy") proxy
          (insert (codes "HTTPS_PROXY") proxy (insert (codes "HTTP_PROXY") proxy target)))))

-- `env_for_sandbox`
unfoldable pub sandbox_environment : Environ → Text → Text → Environ
sandbox_environment environ token workflow_id =
    proxied (environ_set environ (codes "SANDBOX_EGRESS_PROXY_URL")) (
      forward environ forwarded (
        (codes "RUN_CAPABILITY_TOKEN", token)
        ∷ (
          codes "ANTHROPIC_BASE_URL",
          environ_get environ (codes "ANTHROPIC_RELAY_URL")
              (broker_url environ ++ codes "/anthropic"),
        )
        ∷ (
          codes "CAPABILITY_MCP_URL",
          environ_get environ (codes "CAPABILITY_MCP_URL") (broker_url environ ++ codes "/mcp"),
        )
        ∷ (codes "AUTOFIX_WORKDIR", sandbox_workdir)
        ∷ (codes "AUTOFIX_WORKDIR_ID", workflow_id)
        ∷ []))

unfoldable pub run_options : (ℕ → Bool) → Environ → Text → Text → Text → RunOptions
unfolding container_name sandbox_environment
run_options beyond environ token workflow_id host_workdir = record {
  name = container_name beyond workflow_id;
  command = codes "sleep" ∷ codes "infinity" ∷ [];
  detach = true;
  auto_remove = false;
  mem_limit = codes "2g";
  nano_cpus = 1000000000;
  pids_limit = 256;
  cap_drop = codes "ALL" ∷ [];
  security_opt = codes "no-new-privileges:true" ∷ [];
  volumes = (host_workdir, record { bind = sandbox_workdir; mode = codes "rw" }) ∷ [];
  network = environ_set environ (codes "SANDBOX_NETWORK_NAME");
  environment = sandbox_environment environ token workflow_id;
}

-- What was sent to the broker and to the daemon.
pub record Provisioned : Type 0 where
  pub registrations : List Registration
  pub runs : List RunOptions
  pub result : Outcome SandboxHandle

-- How the broker and the daemon answer: `post` raises if the response has an error status.
pub record Platform : Type 0 where
  pub post : Registration → Outcome ⊤
  pub run : RunOptions → Outcome Text

abbrev started : Outcome Text → Outcome SandboxHandle
started (returns id) = returns (record { container_id = id; workdir = sandbox_workdir })
started (raises e) = raises e

module _ (platform : Platform) (beyond : ℕ → Bool) (environ : Environ)
    (token workflow_id host_workdir : Text) where
  unfoldable pub start_container : List Registration → Provisioned
  unfolding run_options
  start_container registrations =
      let options = run_options beyond environ token workflow_id host_workdir in
      record {
        registrations = registrations;
        runs = options ∷ [];
        result = started (platform.run options);
      }

  unfoldable pub register_and_start : Registration → Provisioned
  unfolding start_container
  register_and_start registration = elim (platform.post registration) [
    | raises e ↦ record { registrations = registration ∷ []; runs = []; result = raises e }
    | returns _ ↦ start_container (registration ∷ [])
  ]

  -- `_provision_sandbox_impl`, with the token that was given or made, at the time `now`.
  unfoldable pub provision_sandbox : Option PrRef → ℕ → Provisioned
  unfolding start_container register_and_start binding_for
  provision_sandbox none now = start_container []
  provision_sandbox (some pr) now =
      let secret = environ_get environ (codes "BROKER_REGISTRATION_SECRET") [] in
      if not (nonempty secret)
      then record { registrations = []; runs = []; result = raises runtime_error }
      else register_and_start (record {
        url = broker_url environ ++ codes "/bindings";
        secret = secret;
        token = token;
        binding = binding_for workflow_id host_workdir pr now;
      })
