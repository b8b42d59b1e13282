-- ===== src/Hooks/Restrict.antt =====
-- plugins/tf-guardrails/hooks/restrict_paths.py: the tool calls of the agent are kept to the
-- checkout of its run.
pub mod Pattern
pub mod Laws
pub mod Sound
pub mod Refused
use agentic_temporal_wf.Base.{
  Bool, true, false, Option, none, some, List, [], ◌∷◌, ◌++◌, if◌then◌else◌, or_else, contains,
  Outcome, returns, raises, Exception, type_error, ◌>>=◌, ◌>>◌, ◌==◌, text_eq, nat_eq,
}
use agentic_temporal_wf.Base.Dict.{Dict, lookup}
use agentic_temporal_wf.Base.Text.{Text, codes, strip, nonempty}
use agentic_temporal_wf.Base.Json.{
  Json, string, array, object, end, get, index, has_key, truthy, or_empty,
}
use agentic_temporal_wf.Base.Regex.{literal, same, plus, at_end}
use agentic_temporal_wf.Base.OsPath.{slash, normpath, abspath}
use agentic_temporal_wf.Base.OsPath.Laws.{not_slash}
use agentic_temporal_wf.Hooks.{Decision, allow, deny, Runtime, or_blank}

-- `(?:/|$)`, with the text after it.
unfoldable pub separator : Text → Option Text
unfolding literal same at_end
separator s = or_else (literal same (codes "/") s some) (at_end s (some s))

-- `^/tmp/autofix-[^/]+/repo(?:/|$)`, with the text after the match.
unfoldable pub allowed_prefix : Text → Option Text
unfolding literal same plus separator not_slash
allowed_prefix s =
    literal same (codes "/tmp/autofix-") s
      λ t. plus not_slash t λ _ u. literal same (codes "/repo") u separator

-- A pattern `^stem(?:/|$)` with its text.
abbrev pub denied_within : List (Text × Text)
denied_within =
    (codes ".git/hooks", codes "^\\.git/hooks(?:/|$)")
    ∷ (codes ".github/workflows", codes "^\\.github/workflows(?:/|$)")
    ∷ (codes ".claude", codes "^\\.claude(?:/|$)")
    ∷ []

abbrev pub path_tools : Dict Text (List Text)
path_tools =
    (codes "Read", codes "file_path" ∷ [])
    ∷ (codes "Edit", codes "file_path" ∷ [])
    ∷ (codes "MultiEdit", codes "file_path" ∷ [])
    ∷ (codes "Write", codes "file_path" ∷ [])
    ∷ (codes "Grep", codes "path" ∷ [])
    ∷ (codes "Glob", codes "path" ∷ [])
    ∷ []

abbrev pub denied_tools : List Text
denied_tools = codes "Bash" ∷ codes "WebFetch" ∷ []

-- `s.lstrip("/")`
unfoldable pub lstrip_slashes : Text → Text
lstrip_slashes [] = []
lstrip_slashes (c ∷ s) = let rest = lstrip_slashes s in if c == slash then rest else c ∷ s

-- The loop over the patterns: the first that matches the path below the workdir.
unfoldable pub first_denied : List (Text × Text) → Text → Option Text
unfolding literal same separator
first_denied [] s = none
first_denied ((stem, pattern_text) ∷ more) s = elim (literal same stem s separator) [
  | some _ ↦ some pattern_text
  | none ↦ first_denied more s
]

-- `_check_path` on a text that is not empty, once the path is resolved to `abs_p`: none when the
-- path is allowed.
unfoldable pub check_resolved : Runtime → Text → Text → Option Text
unfolding allowed_prefix lstrip_slashes first_denied
check_resolved x p abs_p = elim (allowed_prefix abs_p) [
  | none ↦ some (
      codes "path "
      ++ x.repr (string p)
      ++ codes " resolves to "
      ++ x.repr (string abs_p)
      ++ codes ", outside the per-workflow sandbox workdir (/tmp/autofix-*/repo/)")
  | some rest ↦ elim (first_denied denied_within (lstrip_slashes rest)) [
    | none ↦ none
    | some pattern_text ↦ some (
        codes "path "
        ++ x.repr (string p)
        ++ codes " targets a protected subtree ("
        ++ pattern_text
        ++ codes ") inside the workdir")
  ]
]

unfoldable pub check_text : Runtime → Text → Text → Option Text
unfolding normpath abspath check_resolved
check_text x cwd p = check_resolved x p (normpath (abspath cwd p))

-- `_check_path`: `os.path.abspath` raises on what is no text.
unfoldable pub check_path : Runtime → Text → Json → Outcome (Option Text)
unfolding truthy check_text
check_path x cwd (string []) = returns (some (codes "empty path"))
check_path x cwd (string (c ∷ p)) = returns (check_text x cwd (c ∷ p))
check_path x cwd v = if truthy v then raises type_error else returns (some (codes "empty path"))

-- `tool in _DENIED_TOOLS`: a list and a dict cannot be hashed.
unfoldable pub is_denied_tool : Json → Outcome Bool
is_denied_tool (string tool) = returns (contains denied_tools tool)
is_denied_tool (array _) = raises type_error
is_denied_tool (object _) = raises type_error
is_denied_tool _ = returns false

-- `_PATH_TOOLS.get(tool)`
unfoldable pub path_keys : Json → Option (List Text)
unfolding lookup
path_keys (string tool) = lookup tool path_tools
path_keys _ = none

-- What a key of the input says: a reason to refuse, or none.
unfoldable pub check_key : Runtime → Text → Text → Json → Outcome (Option Text)
unfolding has_key index check_path
check_key x cwd key args = do
  present ← has_key args key
  if present then index args key >>= check_path x cwd else returns none

unfoldable pub check_keys : Runtime → Text → List Text → Json → Outcome Decision
unfolding check_key
check_keys x cwd [] args = returns allow
check_keys x cwd (key ∷ keys) args = check_key x cwd key args >>= λ err. elim err [
  | none ↦ check_keys x cwd keys args
  | some reason ↦ if nonempty reason then returns (deny reason) else check_keys x cwd keys args
]

unfoldable pub judge : Runtime → Text → Json → Json → Outcome Decision
unfolding is_denied_tool path_keys check_keys
judge x cwd tool args = do
  denied ← is_denied_tool tool
  if denied
      then returns (deny (codes "tool " ++ x.repr tool ++ codes " is disabled by policy"))
      else elim (path_keys tool) [ none ↦ returns allow | some keys ↦ check_keys x cwd keys args ]

-- The payload on the standard input; none for malformed JSON.
unfoldable pub payload_of : Runtime → Text → Option Json
unfolding strip
payload_of x raw = if nonempty (strip raw) then x.json_loads raw else some (object end)

-- `main`
unfoldable pub main : Runtime → Text → Text → Outcome Decision
unfolding payload_of judge get or_blank or_empty
main x cwd raw = elim (payload_of x raw) [
  | none ↦ returns (deny (codes "malformed hook payload: " ++ x.json_error raw))
  | some payload ↦ do
    tool ← get payload (codes "tool_name")
    args ← get payload (codes "tool_input")
    judge x cwd (or_blank tool) (or_empty args)
]

-- The program: an exception that nothing else caught refuses the call. `describe` is the text of
-- the exception with the name of its type.
unfoldable pub run : (Exception → Text) → Runtime → Text → Text → Decision
unfolding main
run describe x cwd raw = elim (main x cwd raw) [
  | returns decision ↦ decision
  | raises e ↦ deny (codes "hook internal error: " ++ describe e)
]
