-- ===== src/Hooks/Secrets.antt =====
-- plugins/tf-mitigations/hooks/secret_scan.py: edits that hold a secret are refused.
pub mod Matchers
pub mod Laws
use agentic_temporal_wf.Base.{
  ℕ, Bool, true, false, Option, none, some, List, [], ◌∷◌, ◌++◌, if◌then◌else◌, or_else, ◌||◌, ◌==◌,
  nat_eq, Outcome, returns, raises, value_error, ◌>>=◌, ⊤, length, is_some,
}
use agentic_temporal_wf.Base.Text.{Text, codes, join, nonempty, within, text_or}
use agentic_temporal_wf.Base.Json.{Json, string, get, or_empty}
use agentic_temporal_wf.Base.Regex.{literal, same, repeat, search_from}
use agentic_temporal_wf.Hooks.{Decision, allow, deny, Runtime}

-- The classes `[0-9A-Z]`, `[A-Za-z0-9]`, `[A-Za-z0-9_]` and `[A-Za-z0-9-]`.
abbrev pub upper_digit : ℕ → Bool
upper_digit c = within b'0' b'9' c || within b'A' b'Z' c

abbrev pub alnum : ℕ → Bool
alnum c = within b'A' b'Z' c || within b'a' b'z' c || within b'0' b'9' c

abbrev pub alnum_underscore : ℕ → Bool
alnum_underscore c = alnum c || c == b'_'

abbrev pub alnum_dash : ℕ → Bool
alnum_dash c = alnum c || c == b'-'

-- The end of a pattern.
abbrev pub found : Text → Option ⊤
found _ = some tt

abbrev pub found_run : Text → Text → Option ⊤
found_run _ _ = some tt

unfoldable pub aws_key : Text → Option ⊤
unfolding literal same repeat
aws_key s = literal same (codes "AKIA") s λ t. repeat upper_digit 16 16 [] t found_run

unfoldable pub private_key : Text → Option ⊤
unfolding literal same
private_key s = literal same (codes "-----BEGIN ") s λ t.
    or_else (literal same (codes "RSA") t λ u. literal same (codes " PRIVATE KEY") u found)
      (literal same (codes "OPENSSH") t λ u. literal same (codes " PRIVATE KEY") u found)

unfoldable pub github_token : Text → Option ⊤
unfolding literal same repeat
github_token s = literal same (codes "ghp_") s λ t. repeat alnum 36 36 [] t found_run

unfoldable pub github_pat : Text → Option ⊤
unfolding literal same repeat
github_pat s =
    literal same (codes "github_pat_") s λ t. repeat alnum_underscore 82 82 [] t found_run

unfoldable pub anthropic_key : Text → Option ⊤
unfolding literal same repeat
anthropic_key s =
    literal same (codes "sk-ant-") s λ t. repeat alnum_dash 20 (length t) [] t found_run

-- `PATTERNS`, each with its text.
abbrev pub patterns : List ((Text → Option ⊤) × Text)
patterns =
    (aws_key, codes "AKIA[0-9A-Z]{16}")
    ∷ (private_key, codes "-----BEGIN (?:RSA|OPENSSH) PRIVATE KEY")
    ∷ (github_token, codes "ghp_[A-Za-z0-9]{36}")
    ∷ (github_pat, codes "github_pat_[A-Za-z0-9_]{82}")
    ∷ (anthropic_key, codes "sk-ant-[A-Za-z0-9-]{20,}")
    ∷ []

abbrev pub candidate_keys : List Text
candidate_keys = codes "new_string" ∷ codes "content" ∷ codes "command" ∷ codes "input" ∷ []

-- `isinstance(v, str)`
abbrev pub candidate : Option Json → List Text
candidate (some (string s)) = s ∷ []
candidate _ = []

-- The loop over the keys: the texts of the input that are scanned.
unfoldable pub candidates : List Text → Json → Outcome (List Text)
unfolding get
candidates [] args = returns []
candidates (key ∷ keys) args = do
  v ← get args key
  rest ← candidates keys args
  returns (candidate v ++ rest)

-- The loop over the patterns: the decision is that of the first that is found.
unfoldable pub scan : (Text → Text) → List ((Text → Option ⊤) × Text) → Text → Decision
unfolding search_from
scan repr [] blob = allow
scan repr ((pattern_, pattern_text) ∷ more) blob = elim (search_from pattern_ blob) [
  | some _ ↦ deny (codes "payload matched secret pattern " ++ repr pattern_text)
  | none ↦ scan repr more blob
]

-- The payload: `sys.stdin.read() or "{}"` is parsed, and a `JSONDecodeError` is a `ValueError`.
unfoldable pub payload_of : Runtime → Text → Outcome Json
payload_of x raw = elim (x.json_loads (text_or raw (codes "{}"))) [
  | none ↦ raises value_error
  | some payload ↦ returns payload
]

-- `main`; what it raises ends the program with an exit status that is not 0.
unfoldable pub main : Runtime → Text → Outcome Decision
unfolding payload_of get or_empty candidates join scan aws_key private_key github_token github_pat
    anthropic_key
main x raw = do
  payload ← payload_of x raw
  input ← get payload (codes "tool_input")
  texts ← candidates candidate_keys (or_empty input)
  returns (scan (λ t. x.repr (string t)) patterns (join (codes "\n") texts))
