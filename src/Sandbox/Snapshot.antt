-- ===== src/Sandbox/Snapshot.antt =====
-- src/activities/snapshot.py, and the pause of a sandbox in src/activities/sandbox.py. What the
-- Docker daemon answers is a parameter.
use agentic_temporal_wf.Base.{
  ℕ, ◌+◌, Bool, ◌&&◌, ltb, leb, none, List, [], ◌∷◌, ◌++◌, take, Outcome, returns, ◌>>=◌, ⊤,
}
use agentic_temporal_wf.Base.Text.{Text, codes, show}
use agentic_temporal_wf.Models.{SandboxHandle, SnapshotRef}

-- The calls of the daemon: a container by its id, its commit to an image of a repository and a
-- tag, the start of a container from an image, and the pause of one.
pub record Daemon : Type 0 where
  pub get : Text → Outcome Text
  pub commit : Text → Text → Text → Outcome ⊤
  pub start : Text → Text → List Text → Outcome Text
  pub pause : Text → Outcome ⊤
  pub unpause : Text → Outcome ⊤

-- The tag within the repository of an image.
abbrev pub snapshot_name : SandboxHandle → ℕ → Text
snapshot_name handle iteration = take 12 handle.container_id ++ codes "-" ++ show iteration

-- `_snapshot_impl`
unfoldable pub snapshot_sandbox : Daemon → SandboxHandle → ℕ → Outcome SnapshotRef
snapshot_sandbox daemon handle iteration = do
  container ← daemon.get handle.container_id
  _ ← daemon.commit container (codes "autofix-snap") (snapshot_name handle iteration)
  returns (record {
    image_tag = codes "autofix-snap:" ++ snapshot_name handle iteration;
    iteration = iteration;
    s3_bucket = none;
    s3_key = none;
  })

-- `_restore_impl`
unfoldable pub restore_sandbox : Daemon → SnapshotRef → Text → Outcome SandboxHandle
restore_sandbox daemon ref container_name = do
  id ← daemon.start ref.image_tag container_name (codes "sleep" ∷ codes "infinity" ∷ [])
  returns (record { container_id = id; workdir = codes "/work" })

-- `should_snapshot`; the difference is at least 5 where the later iteration is 5 above.
unfoldable pub should_snapshot : ℕ → ℕ → Bool
should_snapshot iteration last_snapshot_iter =
    ltb 0 iteration && leb (last_snapshot_iter + 5) iteration

-- `_pause_sandbox_impl` and `_resume_sandbox_impl`
unfoldable pub pause_sandbox : Daemon → SandboxHandle → Outcome ⊤
pause_sandbox daemon handle = do container ← daemon.get handle.container_id; daemon.pause container

unfoldable pub resume_sandbox : Daemon → SandboxHandle → Outcome ⊤
resume_sandbox daemon handle = do
  container ← daemon.get handle.container_id
  daemon.unpause container
