-- ===== src/Lib.antt =====
-- A verification library of the PR autofix platform: a GitHub gateway, a Temporal workflow and the
-- activities that it runs.
--
-- The program. `src/gateway/app.py` receives GitHub's webhooks. It checks their signature, takes
-- the pull request out of them, and starts or signals the workflow of that pull request; a comment
-- `/autofix approve <id>` by an approver becomes a decision signal. `src/workflows/pr_autofix.py`
-- prepares a workspace and a sandbox, runs the agent on the events that have come, at most five
-- times, posts a status, and gives the sandbox and the workspace back. `src/activities/` does the
-- work on GitHub, git and Docker. While the agent runs in a sandbox it may ask, by the broker
-- `src/proxy/credential_proxy.py` and the update `request_push_changes`, to push its changes: the
-- workflow posts an approval request, waits for the decision, and schedules the push. The broker
-- holds the credentials; a sandbox has a token that it resolves to one workflow. In the sandbox
-- `src/agent_runner/` runs the agent's SDK and writes its messages as lines, which the activity
-- reads; the agent's tools are `src/tools/`, and the hooks of `plugins/` are asked before a tool is
-- used. `src/payload_storage/` moves large payloads of Temporal to S3.
--
-- The modules.
--   Base         Python's values and exceptions, dicts, sets, text, JSON and regular expressions
--   Models       src/models.py
--   Allowlist    src/repo_allowlist.py
--   Gateway      src/gateway/app.py: Signature (_verify), Command (_APPROVAL_COMMAND), Project
--                (_project_event), Webhook (webhook), Commits (_fetch_commit_message); Trigger
--                (build_payload) and Script (load_env, parse_pr_url, main) are
--                scripts/trigger_webhook.py
--   Workflow     src/workflows/pr_autofix.py: the object and its handlers; Keys is
--                src/activities/idempotency.py, Request is request_push_changes, Run is run, and
--                System puts them together
--   Broker       src/proxy/credential_proxy.py: Registry (CapabilityRegistry, register_binding), Relay
--                (anthropic_relay), Mcp (mcp)
--   Sandbox      src/activities/sandbox.py: Provision (provision_sandbox), Exec, Teardown; Orphans is
--                src/activities/cleanup_orphans.py, Snapshot is src/activities/snapshot.py with the
--                pause of a sandbox
--   Workdir      src/tools/_workdir.py
--   Tools        Disk is the disk of the sandbox, Repo is src/tools/_local_repo_impl.py, Server is
--                src/tools/local_repo.py
--   Hooks        Restrict is plugins/tf-guardrails/hooks/restrict_paths.py, Secrets is
--                plugins/tf-mitigations/hooks/secret_scan.py
--   AgentRunner  src/agent_runner/main.py and stream_codec.py
--   Agent        Options is src/agents/pr_fixer.py and src/tools/github_mcp.py, Otel is
--                src/observability/otel.py
--   PayloadStorage
--                src/payload_storage/s3_codec.py
--   Cve          src/activities/cve_check.py
--   Worker       src/worker.py
--   Iteration    src/activities/agent_iteration.py: Prompt (_build_prompt), Demux
--                (dispatch_into_sandbox), Activity (_run_iteration_impl, _parse_fix_plan)
--   Lifecycle    src/activities/lifecycle.py: Status (post_status), Git (_run and the commands), Prepare
--                (prepare_workdir), Push (push_changes); Approval is src/activities/approval.py
--   Tests        the theorems at concrete inputs
--
-- The workflow. Temporal runs the handlers of a workflow on one thread, so they interleave only at
-- their `await`s. `Request` and `Run` cut the two coroutines there: a function for each stretch,
-- and a constructor of `Handler` or `Main` for each place to wait, with the local variables that
-- are still alive. `System.step` takes one thing that the server delivers (a signal, an update, a
-- condition that is evaluated, a timer, the result of an activity) and gives the next state, with
-- the activities scheduled. A theorem on all lists of inputs covers every interleaving. There
-- is fuel in two loops: a unit for each byte in `Iteration.Demux.drain`, where a frame takes eight,
-- and one more than the characters in `Iteration.Activity.last_match`, where a step takes one.
--
-- Numbers are natural numbers. The code counts up and compares; where it tests a difference, the
-- test is one of a sum. Text is the list of its code points, and a path is a text. A Python set is
-- the list of its members. Exceptions are the values of `Outcome`. A regular expression is the
-- function that the engine of Python computes, in the order in which it tries the alternatives.
--
-- Arguments of the model, with what is documented of them: SHA-256, SHA-1 and HMAC, the JSON
-- parser, pydantic's coercions, the replies of GitHub, git, Docker and S3, the messages of the
-- agent's SDK, what `os.path.realpath` and `Path.glob` find on a disk, the floats of a score, the
-- values of decimal digits beyond ASCII, and the texts that Python's `repr`, `json.dumps` and base64
-- write. A command that a tool runs may do anything to the disk. A check of the broker reads a clock
-- and a registry that are given; an expiry has a time zone.
--
-- Not modelled: the cutting of a reply's bytes into characters; the heartbeat that runs beside an
-- iteration; the removal of a workspace, which is one call of rmtree; the wiring of processes (the
-- build_default_app functions, the connection of the worker) and of clients (S3, docker); the
-- printing of the scripts; and scripts/hardening_check.py, which tests whether files hold given
-- words and whether modules can be imported.
pub mod Base
pub mod Models
pub mod Allowlist
pub mod Gateway
pub mod Lifecycle
pub mod Workflow
pub mod Broker
pub mod Hooks
pub mod Iteration
pub mod Sandbox
pub mod Workdir
pub mod Tools
pub mod PayloadStorage
pub mod AgentRunner
pub mod Agent
pub mod Cve
pub mod Worker
pub mod Tests
