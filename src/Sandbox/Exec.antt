-- ===== src/Sandbox/Exec.antt =====
-- `exec_in_sandbox`: a command in a sandbox and its output, which Docker gives in two parts or in one.
use agentic_temporal_wf.Base.{ℕ, Option, none, some, List, []}
use agentic_temporal_wf.Base.Text.{Text}
use agentic_temporal_wf.Models.{SandboxHandle, ExecResult}

pub data Output : Type 0 where
  demuxed : Option (List ℕ) → Option (List ℕ) → Output
  single : Option (List ℕ) → Output

abbrev bytes_or_none : Option (List ℕ) → List ℕ
bytes_or_none none = []
bytes_or_none (some bytes) = bytes

abbrev stdout_of : Output → Option (List ℕ)
stdout_of (demuxed out err) = out
stdout_of (single out) = out

abbrev stderr_of : Output → Option (List ℕ)
stderr_of (demuxed out err) = err
stderr_of (single out) = none

-- `_exec_in_sandbox_impl`: `exec_run` takes the container, the command and the directory, and `decode`
-- reads UTF-8 with replacements.
unfoldable pub exec_in_sandbox :
    (Text → List Text → Text → ℕ × Output)
    → (List ℕ → Text)
    → SandboxHandle
    → List Text
    → ExecResult
exec_in_sandbox exec_run decode handle cmd =
    let (rc, output) = exec_run handle.container_id cmd handle.workdir in
    record {
      exit_code = rc;
      stdout = decode (bytes_or_none (stdout_of output));
      stderr = decode (bytes_or_none (stderr_of output));
    }
