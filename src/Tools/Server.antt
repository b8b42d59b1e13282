-- ===== src/Tools/Server.antt =====
-- src/tools/local_repo.py: the tools as the agent calls them. What a call gets is the dict of its
-- arguments, and what it gives back is a dict with one text.
pub mod Laws
use agentic_temporal_wf.Base.{
  ℕ, Bool, true, false, Option, none, some, List, [], ◌∷◌, ◌++◌, Outcome, returns, raises, ◌>>=◌,
  type_error, if◌then◌else◌,
}
use agentic_temporal_wf.Base.Text.{Text, codes}
use agentic_temporal_wf.Base.Json.{
  Json, Items, Fields, nil, cons, end, field, boolean, number, string, array, object, get, index,
  truthy,
}
use agentic_temporal_wf.Models.{Pydantic}
use agentic_temporal_wf.Workdir.{
  Settings, Task, workdir_root_from_env, get_sandbox_handle, safe_join,
}
use agentic_temporal_wf.Tools.Disk.{Disk, folders_above, make_folders}
use agentic_temporal_wf.Base.Text.Decimal.{Decimal, is_decimal, int_of_digits}
use agentic_temporal_wf.Tools.Repo.{
  Target, host, sandbox, Machine, RuffViolation, RuffResult, PytestResult, GitStatus, read_file,
  list_files, apply_edit, run_ruff, run_pytest, git_status,
}

-- What a tool runs with: the environment, the variables of its task, commands and the functions of
-- libraries (`json.loads`, `json.dumps`, SHA-1, `Path.glob`, the validation of models, the digits).
pub record Session : Type 0 where
  pub env : Settings
  pub task : Task
  pub machine : Machine
  pub pydantic : Pydantic
  pub decimal : Decimal
  pub loads : Text → Option Json
  pub dumps : Json → Text
  pub sha1 : Text → Text
  pub matches : Disk → Text → Text → List Text

-- `_text` on a text; on a dict the body is its dump.
unfoldable pub text_content : Text → Json
text_content body = object (
    field (codes "content")
      (array (
        cons
          (object
            (field (codes "type") (string (codes "text")) (field (codes "text") (string body) end)))
          nil))
      end)

-- `_exec_target`: the sandbox of the task where it has one.
unfoldable pub exec_target : Session → Outcome Target
unfolding get_sandbox_handle workdir_root_from_env
exec_target s = elim (get_sandbox_handle s.task) [
  | some handle ↦ returns (sandbox handle)
  | none ↦ do root ← workdir_root_from_env s.env s.task; returns (host root)
]

-- An argument that is used as a text.
unfoldable pub as_text : Json → Outcome Text
as_text (string t) = returns t
as_text _ = raises type_error

-- `_read_file_impl`
unfoldable pub read_file_tool : Session → Json → Disk → Outcome Json × Disk
unfolding workdir_root_from_env index as_text read_file text_content
read_file_tool s args disk = (
  do
    root ← workdir_root_from_env s.env s.task
    path ← index args (codes "path")
    path' ← as_text path
    content ← read_file disk root path'
    returns (text_content content),
  disk,
)

strings : List Text → Items
strings [] = nil
strings (x ∷ xs) = cons (string x) (strings xs)

-- `_list_files_impl`: `args.get("glob", "**/*.py")`.
unfoldable pub list_files_tool : Session → Json → Disk → Outcome Json × Disk
unfolding workdir_root_from_env get as_text list_files text_content strings
list_files_tool s args disk = (
  do
    given ← get args (codes "glob")
    glob ← elim given [ none ↦ returns (codes "**/*.py") | some v ↦ as_text v ]
    root ← workdir_root_from_env s.env s.task
    returns (text_content (s.dumps (array (strings (list_files s.matches disk root glob))))),
  disk,
)

-- Content that is no text is refused by the write, when the folders are made.
unfoldable pub refuse_content : Text → Text → Disk → Outcome Text × Disk
unfolding safe_join folders_above make_folders
refuse_content root path disk = elim (safe_join disk.real root path) [
  | raises e ↦ (raises e, disk)
  | returns target ↦
      let (made, next) = make_folders (folders_above target) disk in
      (made >>= λ _. raises type_error, next)
]

unfoldable pub edit_with : Session → Text → Text → Json → Disk → Outcome Text × Disk
unfolding apply_edit refuse_content
edit_with s root path (string content) disk = apply_edit s.sha1 root path content disk
edit_with s root path _ disk = refuse_content root path disk

-- The three arguments of the call of `apply_edit`.
unfoldable pub edit_arguments : Session → Json → Outcome (Text × Text × Json)
unfolding workdir_root_from_env index as_text
edit_arguments s args = do
  root ← workdir_root_from_env s.env s.task
  path ← index args (codes "path")
  new_content ← index args (codes "new_content")
  path' ← as_text path
  returns (root, path', new_content)

-- `_apply_edit_impl`
unfoldable pub apply_edit_tool : Session → Json → Disk → Outcome Json × Disk
unfolding edit_arguments edit_with text_content
apply_edit_tool s args disk = elim (edit_arguments s args) [
  | raises e ↦ (raises e, disk)
  | returns (root, path, new_content) ↦
      let (sha, next) = edit_with s root path new_content disk in
      (sha >>= λ digest. returns (text_content digest), next)
]

-- `model_dump` of the results.
abbrev dump_violation : RuffViolation → Json
dump_violation v = object (
    field (codes "filename") (string v.filename) (
      field (codes "code") (string v.code)
        (field (codes "message") (string v.message) (field (codes "line") (number v.line) end))))

dump_violations : List RuffViolation → Items
dump_violations [] = nil
dump_violations (v ∷ vs) = cons (dump_violation v) (dump_violations vs)

abbrev dump_ruff : RuffResult → Json
dump_ruff r = object (
    field (codes "exit_code") (number r.exit_code) (
      field (codes "violations") (array (dump_violations r.violations))
        (field (codes "raw_stderr") (string r.raw_stderr) end)))

abbrev dump_pytest : PytestResult → Json
dump_pytest r = object (
    field (codes "exit_code") (number r.exit_code) (
      field (codes "passed") (number r.passed) (
        field (codes "failed") (number r.failed) (
          field (codes "errors") (number r.errors)
            (field (codes "summary") (string r.summary) end)))))

abbrev dump_status : GitStatus → Json
dump_status g = object (
    field (codes "branch") (string g.branch) (
      field (codes "dirty") (boolean g.dirty)
        (field (codes "ahead") (number g.ahead) (field (codes "behind") (number g.behind) end))))

-- `_run_ruff_impl`
unfoldable pub run_ruff_tool : Session → Json → Disk → Outcome Json × Disk
unfolding exec_target run_ruff text_content dump_violations
run_ruff_tool s args disk = elim (exec_target s) [
  | raises e ↦ (raises e, disk)
  | returns target ↦
      let (ran, next) = run_ruff s.machine s.pydantic s.loads target disk in
      (ran >>= λ result. returns (text_content (s.dumps (dump_ruff result))), next)
]

-- `args.get("target") or None`
unfoldable pub chosen_target : Option Json → Outcome (Option Text)
unfolding truthy as_text
chosen_target none = returns none
chosen_target (some v) =
    let chosen = as_text v >>= λ t. returns (some t) in if truthy v then chosen else returns none

-- The two arguments of the call of `run_pytest`.
unfoldable pub pytest_arguments : Session → Json → Outcome (Target × Option Text)
unfolding get chosen_target exec_target
pytest_arguments s args = do
  given ← get args (codes "target")
  target ← exec_target s
  chosen ← chosen_target given
  returns (target, chosen)

-- `_run_pytest_impl`
unfoldable pub run_pytest_tool : Session → Json → Disk → Outcome Json × Disk
unfolding pytest_arguments run_pytest text_content
run_pytest_tool s args disk = elim (pytest_arguments s args) [
  | raises e ↦ (raises e, disk)
  | returns (target, chosen) ↦
      let (result, next) = run_pytest s.machine s.decimal target chosen disk in
      (returns (text_content (s.dumps (dump_pytest result))), next)
]

-- `_git_status_impl`
unfoldable pub git_status_tool : Session → Json → Disk → Outcome Json × Disk
unfolding exec_target git_status text_content
git_status_tool s args disk = elim (exec_target s) [
  | raises e ↦ (raises e, disk)
  | returns target ↦
      let (status, next) = git_status s.machine target disk in
      (returns (text_content (s.dumps (dump_status status))), next)
]

pub record Tool : Type 0 where
  pub name : Text
  pub description : Text
  pub call : Session → Json → Disk → Outcome Json × Disk

-- The tools of `local_repo_mcp_server`.
abbrev pub tools : List Tool
tools =
    record {
      name = codes "read_file";
      description = codes "Read a file inside the PR working copy.";
      call = read_file_tool;
    }
    ∷ record {
      name = codes "list_files";
      description = codes "List files in the working copy matching a glob (default '**/*.py').";
      call = list_files_tool;
    }
    ∷ record {
      name = codes "apply_edit";
      description =
          codes "Overwrite a file with new content. Returns the SHA-1 of the new content.";
      call = apply_edit_tool;
    }
    ∷ record {
      name = codes "run_ruff";
      description = codes "Run ruff check on the working copy. Returns a JSON RuffResult.";
      call = run_ruff_tool;
    }
    ∷ record {
      name = codes "run_pytest";
      description =
          codes
            "Run pytest in the working copy. Optional target (file::test). Returns a JSON PytestResult.";
      call = run_pytest_tool;
    }
    ∷ record {
      name = codes "git_status";
      description = codes "Return the git status of the working copy as a JSON GitStatus.";
      call = git_status_tool;
    }
    ∷ []
