-- ===== src/Tools/Repo.antt =====
-- src/tools/_local_repo_impl.py: files and commands of the working copy.
pub mod Laws
pub mod Summary
use agentic_temporal_wf.Base.{
  ℕ, Bool, true, false, Option, none, some, List, [], ◌∷◌, ◌++◌, if◌then◌else◌, ◌==◌, nat_eq,
  text_eq, Outcome, returns, raises, ◌>>=◌, ◌>>◌, value_error, type_error, os_error, ⊤, get_or,
  contains, not, ◌&&◌, is_some, ◌+◌, ◌*◌, or_else, map, filter,
}
use agentic_temporal_wf.Base.Text.{Text, codes, strip, nonempty, split, is_space, remove_prefix}
use agentic_temporal_wf.Base.Text.Decimal.{Decimal, is_decimal, int_of_digits}
use agentic_temporal_wf.Base.Text.Lines.{splitlines, last_or, sorted}
use agentic_temporal_wf.Base.Dict.{lookup}
use agentic_temporal_wf.Base.OsPath.{slash}
use agentic_temporal_wf.Base.Json.{Json, Items, Fields, nil, cons, array, string, object, index}
use agentic_temporal_wf.Base.Regex.{literal, same, plus, search_from}
use agentic_temporal_wf.Models.{ExecResult, SandboxHandle, Pydantic, valid}
use agentic_temporal_wf.Workdir.{safe_join}
use agentic_temporal_wf.Tools.Disk.{Disk, file, folders_above, make_folders, write_text, read_text}

pub data Target : Type 0 where
  host : Text → Target
  sandbox : SandboxHandle → Target

-- What a command gives: its exit code and its two outputs.
pub record Completed : Type 0 where
  pub returncode : ℕ
  pub stdout : Text
  pub stderr : Text

-- How commands run, and what they leave on the disk: `subprocess.run` in a directory, and
-- `_exec_in_sandbox_impl` in a sandbox.
pub record Machine : Type 0 where
  pub subprocess : Text → List Text → Disk → Completed × Disk
  pub exec_in_sandbox : SandboxHandle → List Text → Disk → ExecResult × Disk

-- `_exec_at`
unfoldable pub exec_at : Machine → Target → List Text → Disk → Completed × Disk
exec_at m (host workdir) cmd disk = m.subprocess workdir cmd disk
exec_at m (sandbox handle) cmd disk =
    let (res, next) = m.exec_in_sandbox handle cmd disk in
    (record { returncode = res.exit_code; stdout = res.stdout; stderr = res.stderr }, next)

-- `_workdir_path`
unfoldable pub workdir_path : Target → Text
workdir_path (host workdir) = workdir
workdir_path (sandbox handle) = handle.workdir

-- `read_file`
unfoldable pub read_file : Disk → Text → Text → Outcome Text
unfolding safe_join read_text
read_file disk workdir path = do target ← safe_join disk.real workdir path; read_text target disk

-- `mkdir` on the parent of the target, then the write.
unfoldable pub write_at : Text → Text → Disk → Outcome ⊤ × Disk
unfolding folders_above make_folders write_text
write_at target new_content disk =
    let (made, next) = make_folders (folders_above target) disk in
    elim made [ raises e ↦ (raises e, next) | returns _ ↦ write_text target new_content next ]

-- `apply_edit`; `sha1` is the digest of the encoded text in hexadecimal digits.
unfoldable pub apply_edit : (Text → Text) → Text → Text → Text → Disk → Outcome Text × Disk
unfolding safe_join write_at
apply_edit sha1 workdir path new_content disk = elim (safe_join disk.real workdir path) [
  | raises e ↦ (raises e, disk)
  | returns target ↦
      let (written, next) = write_at target new_content disk in
      (written >> returns (sha1 new_content), next)
]

pub record RuffViolation : Type 0 where
  pub filename : Text
  pub code : Text
  pub message : Text
  pub line : ℕ

pub record RuffResult : Type 0 where
  pub exit_code : ℕ
  pub violations : List RuffViolation
  pub raw_stderr : Text

-- `RuffViolation(...)` for an item of the report.
unfoldable pub violation : Pydantic → Json → Outcome RuffViolation
unfolding index
violation v item = do
  filename ← index item (codes "filename")
  code ← index item (codes "code")
  message ← index item (codes "message")
  location ← index item (codes "location")
  row ← index location (codes "row")
  filename' ← valid (v.str_of filename)
  code' ← valid (v.str_of code)
  message' ← valid (v.str_of message)
  line ← valid (v.int_of row)
  returns (record { filename = filename'; code = code'; message = message'; line = line })

unfoldable pub violations_of : Pydantic → Items → Outcome (List RuffViolation)
unfolding violation
violations_of v nil = returns []
violations_of v (cons item items) = do
  first ← violation v item
  rest ← violations_of v items
  returns (first ∷ rest)

abbrev pub ruff_command : List Text
ruff_command = codes "ruff" ∷ codes "check" ∷ codes "." ∷ codes "--output-format=json" ∷ []

-- `for item in raw`: a dict gives its keys and a text its characters, which have no items.
unfoldable pub report_of : Pydantic → Json → Outcome (List RuffViolation)
unfolding violations_of
report_of v (array items) = violations_of v items
report_of v (string []) = returns []
report_of v (object Fields.end) = returns []
report_of v _ = raises type_error

-- `run_ruff`; `loads` is `json.loads`, with none for a `JSONDecodeError`, a `ValueError`.
unfoldable pub run_ruff :
    Machine → Pydantic → (Text → Option Json) → Target → Disk → Outcome RuffResult × Disk
unfolding exec_at report_of strip
run_ruff m v loads workdir disk =
    let (res, next) = exec_at m workdir ruff_command disk in
    let parsed : Outcome (List RuffViolation) = elim (loads res.stdout) [
      | none ↦ raises value_error
      | some raw ↦ report_of v raw
    ] in
    (
      (if nonempty (strip res.stdout) then parsed else returns []) >>= λ violations.
          returns (record {
            exit_code = res.returncode;
            violations = violations;
            raw_stderr = res.stderr;
          }),
      next,
    )

-- `(\d+)\s+{token}s?`, with its group.
unfoldable pub count_pattern : Decimal → Text → Text → Option Text
unfolding plus is_space literal same
count_pattern value token s = plus (is_decimal value) s λ digits t. plus is_space t λ _ u.
    literal same token u λ v. or_else (literal same (codes "s") v λ _. some digits) (some digits)

-- `_count_token`
unfoldable pub count_token : Decimal → Text → Text → ℕ
unfolding search_from count_pattern int_of_digits
count_token value out token = elim (search_from (count_pattern value token) out) [
  | some digits ↦ int_of_digits value 0 digits
  | none ↦ 0
]

pub record PytestResult : Type 0 where
  pub exit_code : ℕ
  pub passed : ℕ
  pub failed : ℕ
  pub errors : ℕ
  pub summary : Text

unfoldable pub pytest_command : Option Text → List Text
pytest_command target =
    let base = codes "pytest" ∷ codes "-q" ∷ codes "--no-header" ∷ [] in
    let chosen = get_or target [] in if nonempty chosen then base ++ chosen ∷ [] else base

-- `run_pytest`
unfoldable pub run_pytest : Machine → Decimal → Target → Option Text → Disk → PytestResult × Disk
unfolding exec_at pytest_command count_token splitlines last_or strip
run_pytest m value workdir target disk =
    let (res, next) = exec_at m workdir (pytest_command target) disk in
    (
      record {
        exit_code = res.returncode;
        passed = count_token value res.stdout (codes "passed");
        failed = count_token value res.stdout (codes "failed");
        errors = count_token value res.stdout (codes "error");
        summary = strip (last_or [] (splitlines res.stdout));
      },
      next,
    )

pub record GitStatus : Type 0 where
  pub branch : Text
  pub dirty : Bool
  pub ahead : ℕ
  pub behind : ℕ

-- `_git`
unfoldable pub git : Machine → Target → List Text → Disk → Completed × Disk
unfolding exec_at
git m workdir args disk = exec_at m workdir (codes "git" ∷ args) disk

-- `git_status`; the model's defaults are 0 for `ahead` and `behind`.
unfoldable pub git_status : Machine → Target → Disk → GitStatus × Disk
unfolding git strip
git_status m workdir disk =
    let (branch_out, after) =
      git m workdir (codes "rev-parse" ∷ codes "--abbrev-ref" ∷ codes "HEAD" ∷ []) disk in
    let (porcelain, next) = git m workdir (codes "status" ∷ codes "--porcelain" ∷ []) after in
    (
      record {
        branch = strip branch_out.stdout;
        dirty = nonempty (strip porcelain.stdout);
        ahead = 0;
        behind = 0;
      },
      next,
    )

abbrev is_file : Disk → Text → Bool
is_file disk path = elim (lookup path disk.entries) [ some (file _) ↦ true | _ ↦ false ]

-- `list_files`; `matches` are the paths that `Path.glob` finds below the directory.
unfoldable pub list_files : (Disk → Text → Text → List Text) → Disk → Text → Text → List Text
unfolding sorted split lookup remove_prefix
list_files matches disk workdir glob =
    let root = disk.real workdir in
    sorted (
      map (λ p. remove_prefix p (root ++ codes "/"))
        (filter (λ p. is_file disk p && not (contains (split slash p) (codes ".git")))
          (matches disk root glob)))
