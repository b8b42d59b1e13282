-- ===== src/Tests/Hooks.antt =====
-- The theorems on the hooks at concrete inputs.
use agentic_temporal_wf.Base.{some, ◌++◌, ◌≡◌, ◌↔◌, refl, text_eq, ℕ_discrete, returns, Exception}
use agentic_temporal_wf.Base.Text.{Text, codes}
use agentic_temporal_wf.Base.Json.{Json, Fields, string, object, end, field, find_field}
use agentic_temporal_wf.Base.OsPath.{normpath, abspath}
use agentic_temporal_wf.Hooks.{Decision, allow, deny, Runtime}
use agentic_temporal_wf.Hooks.Restrict
use agentic_temporal_wf.Hooks.Restrict.{run, path_keys}
use agentic_temporal_wf.Hooks.Restrict.Sound.{Passes, run-allow}
use agentic_temporal_wf.Hooks.Restrict.Refused.{run-work}
use agentic_temporal_wf.Hooks.Secrets
use agentic_temporal_wf.Hooks.Secrets.{patterns, scan, main, candidate_keys}
use agentic_temporal_wf.Hooks.Secrets.Matchers.{aws, Leaks}
use agentic_temporal_wf.Hooks.Secrets.Laws.{IsDeny, scan-Leaks, main-leak}

-- `json.loads` gives one payload.
abbrev runtime : Json → Runtime
runtime payload = record {
  json_loads = λ _. some payload;
  repr = λ _. codes "...";
  json_error = λ _. codes "...";
}

abbrev call : Text → Text → Text → Fields
call tool key value =
    field (codes "tool_name") (string tool)
      (field (codes "tool_input") (object (field key (string value) end)) end)

abbrev describe : Exception → Text
describe _ = codes "..."

abbrev cwd : Text
cwd = codes "/tmp/autofix-pr-7/repo"

abbrev read_source : Runtime
read_source = runtime (object (call (codes "Read") (codes "file_path") (codes "a/../src/x.py")))

read_source_allowed : run describe read_source cwd (codes "{}") ≡ allow
unfolding run text_eq ℕ_discrete
read_source_allowed = refl

run-allow_example : Passes read_source cwd (codes "{}")
run-allow_example = run-allow describe read_source cwd (codes "{}") read_source_allowed

-- What the sandbox calls its working copy.
abbrev work_args : Fields
work_args = field (codes "file_path") (string (codes "/work/x.py")) end

abbrev read_work : Fields
read_work = call (codes "Read") (codes "file_path") (codes "/work/x.py")

run-work_example :
    (reason : Text) × (run describe (runtime (object read_work)) cwd (codes "{}") ≡ deny reason)
unfolding Restrict.payload_of find_field path_keys normpath abspath text_eq ℕ_discrete
run-work_example =
    run-work describe (runtime (object read_work)) cwd (codes "{}") (codes "/x.py") read_work
      work_args (codes "Read") (codes "file_path") (codes "/work/x.py") refl refl refl refl refl
      refl

-- Hooks deny a traversal, a protected subtree and malformed input.
abbrev decision_on : Text → Text → Text → Decision
decision_on tool key value = run describe (runtime (object (call tool key value))) cwd (codes "{}")

traversal_denied :
    decision_on (codes "Edit") (codes "file_path") (codes "../../../etc/passwd")
    ≡ deny (
        codes "path "
        ++ codes "..."
        ++ codes " resolves to "
        ++ codes "..."
        ++ codes ", outside the per-workflow sandbox workdir (/tmp/autofix-*/repo/)")
unfolding run text_eq ℕ_discrete
traversal_denied = refl

hooks_denied :
    decision_on (codes "Write") (codes "file_path") (codes "./.git//hooks/pre-commit")
    ≡ deny (
        codes "path "
        ++ codes "..."
        ++ codes " targets a protected subtree ("
        ++ codes "^\\.git/hooks(?:/|$)"
        ++ codes ") inside the workdir")
unfolding run text_eq ℕ_discrete
hooks_denied = refl

-- A search that names no path is let through.
grep_allowed : decision_on (codes "Grep") (codes "pattern") (codes "x") ≡ allow
unfolding run text_eq ℕ_discrete
grep_allowed = refl

abbrev key_text : Text
key_text = codes "key=AKIA0123456789ABCDEF;"

key_text-Leaks : Leaks key_text
key_text-Leaks = record {
  before = codes "key=";
  secret = codes "AKIA0123456789ABCDEF";
  after = codes ";";
  whole = refl;
  known = aws (codes "0123456789ABCDEF") refl refl refl;
}

scan-Leaks_example : IsDeny (scan (λ t. t) patterns key_text) ↔ Leaks key_text
scan-Leaks_example = scan-Leaks (λ t. t) key_text

abbrev edit_args : Fields
edit_args =
    field (codes "file_path") (string (codes "a.py"))
      (field (codes "content") (string key_text) end)

abbrev edit_call : Fields
edit_call = field (codes "tool_input") (object edit_args) end

main-leak_example :
    (reason : Text) × (main (runtime (object edit_call)) (codes "{}") ≡ returns (deny reason))
unfolding Secrets.payload_of find_field text_eq ℕ_discrete
main-leak_example =
    main-leak (runtime (object edit_call)) (codes "{}") edit_call edit_args (codes "content")
      key_text refl refl refl refl key_text-Leaks
