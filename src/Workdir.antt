-- ===== src/Workdir.antt =====
-- src/tools/_workdir.py: the directory of a run, and the paths in it.
pub mod Laws
use agentic_temporal_wf.Base.{
  Bool, true, false, Option, none, some, ◌++◌, [], get_or, if◌then◌else◌, not, ◌&&◌, ◌==◌, text_eq,
  Outcome, returns, raises, value_error, runtime_error,
}
use agentic_temporal_wf.Base.Text.{Text, codes, starts_with, nonempty}
use agentic_temporal_wf.Base.OsPath.{join_path}
use agentic_temporal_wf.Models.{SandboxHandle}

-- `workdir_root`, from the value of `WORKSPACE_ROOT`, which is written without a slash at its end.
unfoldable pub workdir_root : Option Text → Text → Text
workdir_root root workdir_id =
    get_or root (codes "/tmp") ++ codes "/autofix-" ++ workdir_id ++ codes "/repo"

-- `safe_join`, where `resolve` is `os.path.realpath`.
unfoldable pub safe_join : (Text → Text) → Text → Text → Outcome Text
unfolding starts_with join_path
safe_join resolve workdir relative =
    let root = resolve workdir in
    let candidate = resolve (join_path root relative) in
    if not (starts_with candidate (root ++ codes "/")) && not (candidate == root)
    then raises value_error
    else returns candidate

-- The context variables of a task.
pub record Task : Type 0 where
  pub workdir_id : Option Text
  pub sandbox_handle : Option SandboxHandle

-- A token restores what the variable was: `set` gives it, and `reset` takes it.
unfoldable pub set_workdir_id : Text → Task → Option Text × Task
set_workdir_id workdir_id task = (task.workdir_id, record task { workdir_id = some workdir_id })

unfoldable pub reset_workdir_id : Option Text → Task → Task
reset_workdir_id token task = record task { workdir_id = token }

unfoldable pub set_sandbox_handle : SandboxHandle → Task → Option SandboxHandle × Task
set_sandbox_handle handle task = (task.sandbox_handle, record task { sandbox_handle = some handle })

unfoldable pub reset_sandbox_handle : Option SandboxHandle → Task → Task
reset_sandbox_handle token task = record task { sandbox_handle = token }

-- `get_sandbox_handle`: none where the variable is not set.
unfoldable pub get_sandbox_handle : Task → Option SandboxHandle
get_sandbox_handle task = task.sandbox_handle

-- The environment variables that the module reads.
pub record Settings : Type 0 where
  pub autofix_workdir : Option Text
  pub autofix_workdir_id : Option Text
  pub workspace_root : Option Text

-- `workdir_root_from_env`; an empty value counts as none.
unfoldable pub workdir_root_from_env : Settings → Task → Outcome Text
unfolding workdir_root
workdir_root_from_env env task =
    let sandbox_workdir = get_or env.autofix_workdir [] in
    let wid =
      get_or
        (elim task.workdir_id [ none ↦ env.autofix_workdir_id | some workdir_id ↦ some workdir_id ])
        [] in
    if nonempty sandbox_workdir
    then returns sandbox_workdir
    else if nonempty wid
    then returns (workdir_root env.workspace_root wid)
    else raises runtime_error
