-- ===== src/Broker/Mcp.antt =====
-- `mcp`: the tools that a sandbox may call. What the broker asks of GitHub and of the workflow is
-- kept in a trace, and their replies are arguments.
pub mod Bound
use agentic_temporal_wf.Base.{
  ℕ, Bool, true, false, ◌||◌, not, Option, none, some, List, [], ◌∷◌, ◌++◌,
}
use agentic_temporal_wf.Base.{◌==◌, text_eq, if◌then◌else◌, get_or}
use agentic_temporal_wf.Base.{
  Outcome, returns, raises, http_exception, not_found, value_error, validation_error,
}
use agentic_temporal_wf.Base.Text.{Text, codes, show, split_once}
use agentic_temporal_wf.Base.Json.{
  Json, Items, Fields, nil, cons, end, field, null, boolean, number, string, array, object, get,
  index, or_empty, format, find_field,
}
use agentic_temporal_wf.Models.{Pydantic, valid, OperationRequest}
use agentic_temporal_wf.Broker.Registry.{Binding, Registry, Headers, resolve, run_token}

-- What the broker does for a tool: `_github_get` on a path, `_request_push_update` on a workflow.
pub data Call : Type 0 where
  github_get : Text → Call
  request_push : Text → OperationRequest → Call

-- A computation that calls, and then returns or raises.
pub record Traced {ℓ} (A : Type ℓ) : Type ℓ where
  pub calls : List Call
  pub result : Outcome A

-- A computation that calls nothing.
abbrev pub quiet {ℓ} : {A : Type ℓ} → Outcome A → Traced A
quiet m = record { calls = []; result = m }

abbrev pub then_trace {ℓ κ} :
    {A : Type ℓ} {B : Type κ} → List Call → Outcome A → (A → Traced B) → Traced B
then_trace calls (returns a) f = record { calls = calls ++ (f a).calls; result = (f a).result }
then_trace calls (raises e) f = record { calls = calls; result = raises e }

infixl 5 ◌>>=◌
abbrev pub ◌>>=◌ {ℓ κ} : {A : Type ℓ} {B : Type κ} → Traced A → (A → Traced B) → Traced B
m >>= f = then_trace m.calls m.result f

-- What answers the calls, and the parts of Python's library that the handler uses: the validation
-- of fields, `str` of a list or a dict, and `json.dumps`.
pub record Backend : Type 0 where
  pub github : Text → Outcome Json
  pub push : Text → OperationRequest → Outcome Json
  pub pydantic : Pydantic
  pub repr : Json → Text
  pub dumps : Json → Text

-- The answer to a request: a JSON body, or an empty one with the status 202.
pub data Answer : Type 0 where
  json : Json → Answer
  accepted : Answer

abbrev pub is_text : Text → Option Json → Bool
is_text t (some (string s)) = s == t
is_text t _ = false

module _ (x : Backend) where
  abbrev pub ask : Text → Traced Json
  ask path = record { calls = github_get path ∷ []; result = x.github path }

  abbrev pub ask_push : Text → OperationRequest → Traced Json
  ask_push workflow_id request = record {
    calls = request_push workflow_id request ∷ [];
    result = x.push workflow_id request;
  }

  abbrev pub field_of : Json → Text → Outcome Json
  field_of (object fs) k = elim (find_field k fs) [
    | none ↦ raises validation_error
    | some v ↦ returns v
  ]
  field_of _ k = raises validation_error

  -- `OperationRequest.model_validate(args)`
  unfoldable pub operation_request : Json → Traced OperationRequest
  unfolding find_field
  operation_request args = do
    summary ← quiet (field_of args (codes "summary"))
    s ← quiet (valid (x.pydantic.str_of summary))
    message ← quiet (field_of args (codes "commit_message"))
    m ← quiet (valid (x.pydantic.str_of message))
    quiet (returns (record { summary = s; commit_message = m }))

-- The binding's repository and number, in the paths of GitHub's API.
abbrev pub repo_path : Text → Text → Text
repo_path owner repo = codes "/repos/" ++ owner ++ codes "/" ++ repo

abbrev pub pr_path : Text → Text → ℕ → Text
pr_path owner repo n = repo_path owner repo ++ (codes "/pulls/" ++ show n)

-- `binding.repository.split("/", 1)`, taken apart into two.
abbrev pub both : Option (Text × Text) → Outcome (Text × Text)
both none = raises value_error
both (some p) = returns p

-- The second check of the token reads the clock and the registry again, `later` and `registry'`.
module _ (x : Backend) (later : ℕ) (registry' : Registry) (headers : Headers) where
  unfoldable pub list_check_results : Text → Text → Binding → Traced Json
  unfolding index format show
  list_check_results owner repo b = do
    pr ← ask x (pr_path owner repo b.pr_number)
    head ← quiet (index pr (codes "head"))
    sha ← quiet (index head (codes "sha"))
    ask x (repo_path owner repo ++ (codes "/commits/" ++ format x.repr sha ++ codes "/check-runs"))

  unfoldable pub request_push_changes : Binding → Json → Traced Json
  unfolding operation_request resolve run_token
  request_push_changes b args = do
    _ ← quiet (resolve later registry' (run_token headers) (codes "changes.publish"))
    request ← operation_request x args
    ask_push x b.workflow_id request

  -- The chain of tests on the name of the tool.
  unfoldable pub call_tool : Option Json → Json → Binding → Text → Text → Traced Json
  unfolding list_check_results request_push_changes show
  call_tool name args b owner repo =
      if is_text (codes "get_pr_context") name
      then ask x (pr_path owner repo b.pr_number)
      else if is_text (codes "list_review_comments") name
      then ask x (pr_path owner repo b.pr_number ++ codes "/comments")
      else if is_text (codes "list_check_results") name
      then list_check_results owner repo b
      else if is_text (codes "request_push_changes") name
      then request_push_changes b args
      else quiet (raises (http_exception not_found))

-- `{k: v, ...}` and `[v, ...]`
abbrev pub dict_of : List (Text × Json) → Fields
dict_of [] = end
dict_of ((k, v) ∷ d) = field k v (dict_of d)

abbrev pub list_of : List Json → Items
list_of [] = nil
list_of (v ∷ vs) = cons v (list_of vs)

abbrev pub rpc : Json → Json → Answer
rpc id result = json (
    object (
      dict_of (
        (codes "jsonrpc", string (codes "2.0"))
        ∷ (codes "id", id)
        ∷ (codes "result", result)
        ∷ [])))

abbrev pub initialized : Json
initialized = object (
    dict_of (
      (codes "protocolVersion", string (codes "2025-03-26"))
      ∷ (codes "capabilities", object (dict_of ((codes "tools", object end) ∷ [])))
      ∷ (
        codes "serverInfo",
        object (
            dict_of (
              (codes "name", string (codes "capability-broker"))
              ∷ (codes "version", string (codes "1.0"))
              ∷ [])),
      )
      ∷ []))

abbrev of_type : Text → List (Text × Json) → Json
of_type t more = object (dict_of ((codes "type", string t) ∷ more))

abbrev tool : Text → Text → Json → Json
tool name description schema = object (
    dict_of (
      (codes "name", string name)
      ∷ (codes "description", string description)
      ∷ (codes "inputSchema", schema)
      ∷ []))

abbrev no_input : Json
no_input = of_type (codes "object") ((codes "properties", object end) ∷ [])

abbrev push_input : Json
push_input = of_type (codes "object") (
    (
      codes "properties",
      object (
          dict_of (
            (codes "summary", of_type (codes "string") [])
            ∷ (codes "commit_message", of_type (codes "string") [])
            ∷ [])),
    )
    ∷ (
      codes "required",
      array (list_of (string (codes "summary") ∷ string (codes "commit_message") ∷ [])),
    )
    ∷ [])

abbrev pub tools : List Json
tools =
    tool (codes "get_pr_context") (codes "Read the bound pull request.") no_input
    ∷ tool (codes "list_review_comments") (codes "Read review comments for the bound pull request.")
        no_input
    ∷ tool (codes "list_check_results") (codes "Read checks for the bound PR head.") no_input
    ∷ tool (codes "request_push_changes") (codes "Request approved publication of local edits.")
        push_input
    ∷ []

-- The text content in which the result of a tool comes back.
abbrev content_of : Text → Json
content_of t = object (
    dict_of (
      (
        codes "content",
        array (list_of (of_type (codes "text") ((codes "text", string t) ∷ []) ∷ [])),
      )
      ∷ []))

module _ (x : Backend) (later : ℕ) (registry' : Registry) (headers : Headers) where
  -- The part after `tools/call` has been recognized.
  unfoldable pub tools_call : Binding → Json → Json → Traced Answer
  unfolding get or_empty split_once call_tool
  tools_call b message id = do
    found ← quiet (get message (codes "params"))
    let params = or_empty found
    name ← quiet (get params (codes "name"))
    given ← quiet (get params (codes "arguments"))
    (owner, repo) ← quiet (both (split_once b'/' b.repository))
    result ← call_tool x later registry' headers name (or_empty given) b owner repo
    quiet (returns (rpc id (content_of (x.dumps result))))

  unfoldable pub dispatch : Binding → Json → Traced Answer
  unfolding get tools_call
  dispatch b message = do
    method ← quiet (get message (codes "method"))
    found ← quiet (get message (codes "id"))
    let id = get_or found null
    if is_text (codes "initialize") method
        then quiet (returns (rpc id initialized))
        else if is_text (codes "notifications/initialized") method
        then quiet (returns accepted)
        else if is_text (codes "tools/list") method
        then quiet
            (returns (rpc id (object (dict_of ((codes "tools", array (list_of tools)) ∷ [])))))
        else if is_text (codes "tools/call") method
        then tools_call b message id
        else quiet (raises (http_exception not_found))

  -- `mcp`, on the body as `request.json()` gives it.
  unfoldable pub mcp : ℕ → Registry → Option Json → Traced Answer
  unfolding resolve run_token dispatch
  mcp now registry body = do
    b ← quiet (resolve now registry (run_token headers) (codes "source.read"))
    message ← quiet (elim body [ none ↦ raises value_error | some v ↦ returns v ])
    dispatch b message
