-- ===== src/Sandbox/Teardown.antt =====
-- `teardown_sandbox`: a container that is gone already is no error.
use agentic_temporal_wf.Base.{List, [], ◌∷◌}
use agentic_temporal_wf.Base.Text.{Text}
use agentic_temporal_wf.Models.{SandboxHandle}

-- How the daemon answers: the call is done, there is no such container, or it fails.
pub data Docker : Type 0 where
  ok missing broken : Docker

pub data DockerCall : Type 0 where
  get_container stop_container remove_container : Text → DockerCall

pub data TornDown : Type 0 where
  gone failed : TornDown

pub record Teardown : Type 0 where
  pub calls : List DockerCall
  pub result : TornDown

-- One call under `except NotFound: return`, and what follows it.
abbrev attempt : DockerCall → Docker → Teardown → Teardown
attempt call ok next = record { calls = call ∷ next.calls; result = next.result }
attempt call missing next = record { calls = call ∷ []; result = gone }
attempt call broken next = record { calls = call ∷ []; result = failed }

-- `_teardown_sandbox_impl`, from the daemon's answers.
unfoldable pub teardown_sandbox : SandboxHandle → Docker → Docker → Docker → Teardown
teardown_sandbox handle got stopped removed =
    let id = handle.container_id in
    attempt (get_container id) got (
      attempt (stop_container id) stopped
        (attempt (remove_container id) removed (record { calls = []; result = gone })))
