-- ===== src/Gateway/Script.antt =====
-- scripts/trigger_webhook.py: from the URL of a pull request to the webhook that the script sends.
pub mod Laws
use agentic_temporal_wf.Base.{
  ℕ, Bool, true, false, not, ◌||◌, Option, none, some, List, [], ◌∷◌, ◌++◌, if◌then◌else◌, or_else,
  ◌==◌, nat_eq, text_eq, Outcome, returns, raises, ◌>>=◌, take,
}
use agentic_temporal_wf.Base.Dict.{Dict, lookup, insert}
use agentic_temporal_wf.Base.Text.{
  Text, codes, strip, nonempty, starts_with, has_infix, split_once, show,
}
use agentic_temporal_wf.Base.Text.Decimal.{Decimal, is_decimal, int_of_digits}
use agentic_temporal_wf.Base.Text.Lines.{splitlines}
use agentic_temporal_wf.Base.Json.{Json}
use agentic_temporal_wf.Base.Regex.{literal, same, plus}
use agentic_temporal_wf.Base.OsPath.Laws.{not_slash}
use agentic_temporal_wf.Gateway.Signature.{Hmac}
use agentic_temporal_wf.Gateway.Trigger.{build_payload}
use agentic_temporal_wf.Gateway.Webhook.{WebhookRequest}

-- `s.strip(c)` for one character.
lstrip_char : ℕ → Text → Text
lstrip_char d [] = []
lstrip_char d (c ∷ s) = let rest = lstrip_char d s in if c == d then rest else c ∷ s

rstrip_char : ℕ → Text → Text
rstrip_char d [] = []
rstrip_char d (c ∷ s) = elim (rstrip_char d s) [
  | [] ↦ (if c == d then [] else c ∷ [])
  | e ∷ t ↦ c ∷ e ∷ t
]

unfoldable pub strip_char : ℕ → Text → Text
unfolding lstrip_char rstrip_char
strip_char d s = rstrip_char d (lstrip_char d s)

-- `os.environ.setdefault`
unfoldable pub set_default : Text → Text → Dict Text Text → Dict Text Text
unfolding lookup insert
set_default k v environ = elim (lookup k environ) [ none ↦ insert k v environ | some _ ↦ environ ]

-- A line of the file: a comment, a blank line and a line without `=` are passed over.
unfoldable pub load_line : Text → Dict Text Text → Dict Text Text
unfolding strip starts_with has_infix split_once strip_char set_default
load_line raw environ =
    let line = strip raw in
    if not (nonempty line) || starts_with line (codes "#") || not (has_infix line (codes "="))
    then environ
    else elim (split_once b'=' line) [
      | none ↦ environ
      | some (k, v) ↦ set_default (strip k) (strip_char b'\'' (strip_char b'"' (strip v))) environ
    ]

unfoldable pub load_lines : List Text → Dict Text Text → Dict Text Text
unfolding load_line
load_lines [] environ = environ
load_lines (line ∷ lines) environ = load_lines lines (load_line line environ)

-- `load_env`; none where there is no such file.
unfoldable pub load_env : Option Text → Dict Text Text → Dict Text Text
unfolding load_lines splitlines
load_env none environ = environ
load_env (some content) environ = load_lines (splitlines content) environ

-- `://github\.com/([^/]+)/([^/]+)/pull/(\d+)`, with the three groups.
unfoldable pub url_rest : Decimal → Text → Option (Text × Text × Text)
unfolding literal same plus not_slash
url_rest value s = literal same (codes "://github.com/") s λ t. plus not_slash t λ owner u.
    literal same (codes "/") u λ v. plus not_slash v λ repo w.
      literal same (codes "/pull/") w
        λ x. plus (is_decimal value) x λ digits _. some (owner, repo, digits)

-- `parse_pr_url`; none is the exit with `not a PR url`.
unfoldable pub parse_pr_url : Decimal → Text → Option (Text × Text × ℕ)
unfolding url_rest literal same int_of_digits
parse_pr_url value url =
    elim (literal same (codes "http") url
      λ t. or_else (literal same (codes "s") t (url_rest value)) (url_rest value t)) [
        | none ↦ none
        | some (owner, repo, digits) ↦ some (owner, repo, int_of_digits value 0 digits)
      ]

-- What `main` posts for a pull request that GitHub returned; `encode` is `json.dumps(...).encode()`.
unfoldable pub script_request : Hmac → (Json → List ℕ) → Text → Text → Json → Outcome WebhookRequest
unfolding build_payload
script_request hmac encode secret delivery pr = do
  payload ← build_payload pr
  let body = encode payload
  returns (record {
    event = codes "pull_request";
    delivery = delivery;
    signature = some (codes "sha256=" ++ hmac secret body);
    body = body;
  })

-- How `main` ends: 0, or 1 where the gateway does not answer 202.
unfoldable pub exit_status : ℕ → ℕ
exit_status status = if status == 202 then 0 else 1

-- The id of the workflow that `main` prints, of the parts of the URL.
unfoldable pub printed_id : Text → Text → ℕ → Text
unfolding show
printed_id owner repo number =
    codes "pr-autofix-" ++ owner ++ codes "-" ++ repo ++ codes "-" ++ show number

-- The id that `main` prints for its argument, where it gets so far.
unfoldable pub printed_for : Decimal → Text → Option Text
unfolding parse_pr_url printed_id
printed_for value url = elim (parse_pr_url value url) [
  | none ↦ none
  | some (owner, repo, number) ↦ some (printed_id owner repo number)
]
