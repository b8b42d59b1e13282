-- ===== src/Iteration/Activity.antt =====
-- `_run_iteration_impl`: the messages of the agent, and the plan that its last result gives.
pub mod Laws
pub mod Fuel
use agentic_temporal_wf.Base.{
  ℕ, zero, suc, ◌+◌, Bool, true, false, not, ◌&&◌, Option, none, some, List, [], ◌∷◌, ◌++◌,
  if◌then◌else◌, ◌==◌, text_eq, nat_eq, get_or, length, ◌⊎◌, inl, inr,
}
use agentic_temporal_wf.Base.{Outcome, returns, raises, ◌>>=◌, type_error}
use agentic_temporal_wf.Base.Text.{Text, codes}
use agentic_temporal_wf.Base.Regex.{star, literal, same}
use agentic_temporal_wf.Base.Json.{
  Json, Items, Fields, nil, cons, end, field, null, boolean, number, string, array, object, get,
  truthy, format,
}
use agentic_temporal_wf.Models.{FixPlan, WorkflowState, blocked_plan}

-- `[^{}]`
abbrev pub not_brace : ℕ → Bool
not_brace c = not (c == b'{') && not (c == b'}')

-- A match of `_JSON_TAIL_RE` at the start of the text, and the text after it.
unfoldable pub match_tail : Text → Option (Text × Text)
unfolding literal star same
match_tail s = literal same (codes "{") s λ s1. star not_brace s1 λ before s2.
    literal same (codes "\"action\"") s2 λ s3. star not_brace s3 λ after s4.
      literal same (codes "}") s4
        λ rest. some (codes "{" ++ before ++ codes "\"action\"" ++ after ++ codes "}", rest)

abbrev pub last_of : Option Text → Text → Option Text
last_of none m = some m
last_of (some later) m = some later

-- The last match, on fuel: a step takes a character at least.
unfoldable pub last_match : ℕ → Text → Option Text
unfolding match_tail
last_match zero s = none
last_match (suc fuel) [] = none
last_match (suc fuel) (c ∷ s) = elim (match_tail (c ∷ s)) [
  | none ↦ last_match fuel s
  | some (m, rest) ↦ last_of (last_match fuel rest) m
]

-- `FixPlan.model_validate_json`: a plan, or the name of the exception.
abbrev pub Validate : Type 0
Validate = Text → FixPlan ⊎ Text

abbrev validated : FixPlan ⊎ Text → FixPlan
validated (inl plan) = plan
validated (inr name) =
    blocked_plan (codes "Agent FixPlan JSON did not validate.")
      (codes "agent output not parseable: " ++ name)

abbrev plan_of_match : Validate → Option Text → FixPlan
plan_of_match validate none =
    blocked_plan (codes "Agent did not emit a FixPlan JSON tail.")
      (codes "agent output not parseable: no JSON object containing 'action'")
plan_of_match validate (some m) = validated (validate m)

-- `_parse_fix_plan`
unfoldable pub parse_fix_plan : Validate → Json → Outcome FixPlan
unfolding truthy last_match
parse_fix_plan validate (string (c ∷ s)) =
    returns (plan_of_match validate (last_match (suc (length s)) (c ∷ s)))
parse_fix_plan validate v =
    if truthy v
    then raises type_error
    else returns (
        blocked_plan (codes "Agent produced no final output.")
          (codes "agent output not parseable: empty"))

-- The counters, and what the last result message said.
pub record Progress : Type 0 where
  pub messages : ℕ
  pub tool_calls : ℕ
  pub final_text : Json
  pub final_subtype : Json

abbrev pub no_progress : Progress
no_progress = record { messages = 0; tool_calls = 0; final_text = string []; final_subtype = null }

abbrev letters : Text → Items
letters [] = nil
letters (c ∷ s) = cons (string (c ∷ [])) (letters s)

abbrev keys : Fields → Items
keys end = nil
keys (field k _ fs) = cons (string k) (keys fs)

-- `iter(v or [])`
unfoldable pub items_of : Json → Outcome Items
unfolding truthy
items_of (array xs) = returns xs
items_of (string s) = returns (letters s)
items_of (object fs) = returns (keys fs)
items_of v = if truthy v then raises type_error else returns nil

abbrev pub is_text : Text → Option Json → Bool
is_text t (some (string s)) = s == t
is_text t _ = false

-- The loop over the blocks of an assistant's message.
unfoldable pub count_calls : Items → ℕ → Outcome ℕ
unfolding get
count_calls nil n = returns n
count_calls (cons block blocks) n = do
  kind ← get block (codes "type")
  count_calls blocks (if is_text (codes "tool_use") kind then n + 1 else n)

unfoldable pub on_message : Json → Progress → Outcome Progress
unfolding get items_of count_calls truthy
on_message msg p = do
  kind ← get msg (codes "type")
  if is_text (codes "assistant") kind
      then (do
        content ← get msg (codes "content")
        blocks ← items_of (get_or content null)
        n ← count_calls blocks p.tool_calls
        returns (record p { tool_calls = n }))
      else if is_text (codes "result") kind
      then (do
        subtype ← get msg (codes "subtype")
        result ← get msg (codes "result")
        let text = get_or result null
        returns (record p {
          final_subtype = get_or subtype null;
          final_text = if truthy text then text else string [];
        }))
      else returns p

abbrev pub counted : Progress → Progress
counted p = record p { messages = p.messages + 1 }

-- A line that is no JSON is only counted.
abbrev pub on_loaded : Option Json → Progress → Outcome Progress
on_loaded none p = returns p
on_loaded (some msg) p = on_message msg p

-- The loop over the lines; `loads` is `json.loads`, with `none` for a `JSONDecodeError`.
unfoldable pub consume : (Text → Option Json) → List Text → Progress → Outcome Progress
unfolding on_message
consume loads [] p = returns p
consume loads (line ∷ lines) p = do q ← on_loaded (loads line) (counted p); consume loads lines q

abbrev is_success : Json → Bool
is_success (string s) = s == codes "success"
is_success _ = false

-- From the end of the loop on.
unfoldable pub conclude : Validate → (Json → Text) → Progress → Outcome FixPlan
unfolding truthy format parse_fix_plan
conclude validate repr p =
    if truthy p.final_subtype && not (is_success p.final_subtype)
    then returns (
        blocked_plan (codes "Agent terminated abnormally.")
          (codes "ResultMessage.subtype=" ++ format repr p.final_subtype))
    else parse_fix_plan validate p.final_text

-- `_run_iteration_impl`, from the lines that the sandbox yields.
unfoldable pub run_iteration :
    Validate → (Json → Text) → (Text → Option Json) → WorkflowState → List Text → Outcome FixPlan
unfolding consume conclude
run_iteration validate repr loads state lines = elim state.sandbox [
  | none ↦ returns (
      blocked_plan (codes "No sandbox provisioned.")
        (codes "state.sandbox is None — provision_sandbox not run"))
  | some _ ↦ do p ← consume loads lines no_progress; conclude validate repr p
]
