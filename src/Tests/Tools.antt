-- ===== src/Tests/Tools.antt =====
-- The theorems on the tools of the agent at concrete inputs.
use agentic_temporal_wf.Base.{contains, ◌⊎◌}
use agentic_temporal_wf.Base.{
  ℕ, ◌+◌, ◌-◌, ◌<◌, true, none, some, [], ◌∷◌, ◌++◌, ◌≡◌, refl, text_eq, ℕ_discrete, arith, returns,
  All, if◌then◌else◌, ◌&&◌, leb,
}
use agentic_temporal_wf.Base.Text.{codes, show, is_space}
use agentic_temporal_wf.Base.Json.{Json, string, object, end, field}
use agentic_temporal_wf.Workdir.{workdir_root_from_env}
use agentic_temporal_wf.Tools.Disk.{Disk, file, folder, universal_newlines}
use agentic_temporal_wf.Base.Text.Decimal.{Decimal}
use agentic_temporal_wf.Tools.Repo.{apply_edit, read_file, count_token}
use agentic_temporal_wf.Tools.Repo.Laws.{read_file-apply_edit}
use agentic_temporal_wf.Tools.Repo.Summary.{IsDecimal, count_token-show}
use agentic_temporal_wf.Tools.Server.{Session, Tool, tools}
use agentic_temporal_wf.Tools.Server.Laws.{command_tools, Touched, tools-Touched}
use agentic_temporal_wf.Tests.Gateway.{pydantic}
use agentic_temporal_wf.Tests.Serial.{dumps, loads}

-- A disk without links.
abbrev disk : Disk
disk = record { real = λ p. p; entries = (codes "/w", folder) ∷ [] }

abbrev edited : Disk
edited = record {
  real = λ p. p;
  entries = (codes "/w", folder) ∷ (codes "/w/a.py", file (codes "x\r\n")) ∷ [];
}

edit_done :
    apply_edit (λ t. t) (codes "/w") (codes "a.py") (codes "x\r\n") disk
    ≡ (returns (codes "x\r\n"), edited)
unfolding apply_edit text_eq ℕ_discrete
edit_done = refl

read_file-apply_edit_example :
    (read_file edited (codes "/w") (codes "a.py") ≡ returns (universal_newlines (codes "x\r\n")))
    × (codes "x\r\n" ≡ codes "x\r\n")
read_file-apply_edit_example =
    read_file-apply_edit (λ t. t) (codes "/w") (codes "a.py") (codes "x\r\n") disk edited edit_done

-- A carriage return is not read back.
newlines_change : universal_newlines (codes "x\r\n") ≡ codes "x\n"
unfolding universal_newlines ℕ_discrete
newlines_change = refl

-- The digits of ASCII alone.
abbrev ascii_value : Decimal
ascii_value c = if leb 48 c && leb c 57 then some (c - 48) else none

ascii_value-ascii : (d : ℕ) → d < 10 → ascii_value (48 + d) ≡ some d
ascii_value-ascii d h = ground arith

ascii_value-no_space : (c : ℕ) → is_space c ≡ true → ascii_value c ≡ none
unfolding is_space
ascii_value-no_space c h = ground arith

ascii_value-IsDecimal : IsDecimal ascii_value
ascii_value-IsDecimal = record { ascii = ascii_value-ascii; no_space = ascii_value-no_space }

count_token-show_example :
    count_token ascii_value
      (codes "..F. [100%]\n1 failed, " ++ (show 3 ++ (32 ∷ (codes "passed" ++ codes " in 0.12s"))))
      (codes "passed")
    ≡ 3
unfolding is_space ℕ_discrete
count_token-show_example =
    count_token-show ascii_value ascii_value-IsDecimal (codes "..F. [100%]\n1 failed, ")
      (codes "assed") (codes " in 0.12s") b'p' 3 refl refl

abbrev session : Session
session = record {
  env = record {
    autofix_workdir = some (codes "/w");
    autofix_workdir_id = none;
    workspace_root = none;
  };
  task = record { workdir_id = none; sandbox_handle = none };
  machine = record {
    subprocess = λ _ _ d. (record { returncode = 0; stdout = []; stderr = [] }, d);
    exec_in_sandbox = λ _ _ d. (record { exit_code = 0; stdout = []; stderr = [] }, d);
  };
  pydantic = pydantic;
  decimal = ascii_value;
  loads = loads;
  dumps = dumps;
  sha1 = λ t. t;
  matches = λ _ _ _. [];
}

abbrev edit_args : Json
edit_args = object (
    field (codes "path") (string (codes "b/c.py"))
      (field (codes "new_content") (string (codes "y")) end))

in_workdir : workdir_root_from_env session.env session.task ≡ returns (codes "/w")
unfolding workdir_root_from_env
in_workdir = refl

tools-Touched_example :
    All
      (λ (t : Tool).
        (contains command_tools t.name ≡ true)
        ⊎ Touched (codes "/w") (codes "/w/b/c.py") disk (t.call session edit_args disk).1)
      tools
tools-Touched_example =
    tools-Touched session edit_args disk (codes "/w") (codes "/w/b/c.py") in_workdir
