-- ===== src/Broker/Registry.antt =====
-- `CapabilityRegistry`, its registration endpoint, and the token of a request.
pub mod Laws
use agentic_temporal_wf.Base.{
  ℕ, suc, ◌≤◌, ◌<◌, Bool, true, false, not, Option, none, some, List, [], ◌∷◌,
}
use agentic_temporal_wf.Base.{◌==◌, text_eq, contains, get_or, if◌then◌else◌, ltb, leb, length}
use agentic_temporal_wf.Base.{
  Outcome, returns, raises, ◌>>=◌, http_exception, bad_request, unauthorized, forbidden,
  service_unavailable, type_error, value_error, validation_error,
}
use agentic_temporal_wf.Base.Text.{
  Text, codes, strip, starts_with, remove_prefix, text_or, nonempty,
}
use agentic_temporal_wf.Base.Dict.{Dict, lookup, insert}
use agentic_temporal_wf.Base.Json.{
  Json, Items, Fields, nil, cons, end, field, string, array, object, get, index,
}
use agentic_temporal_wf.Models.{CapabilityBinding, valid}

-- Points in time are readings of the clock: an expiry has a time zone, as that of
-- `provision_sandbox` has. For one without a zone, `<=` raises a `TypeError` in `resolve`.
abbrev pub Binding : Type 0
Binding = CapabilityBinding ℕ

-- `_bindings`
abbrev pub Registry : Type 0
Registry = Dict Text Binding

-- `CapabilityRegistry.register`
unfoldable pub register : Text → Binding → Registry → Registry
register token binding registry = insert token binding registry

abbrev pub permitted : Binding → Text → Outcome Binding
permitted b capability =
    if contains b.capabilities capability then returns b else raises (http_exception forbidden)

-- The checks on what `_bindings.get(token)` gave.
unfoldable pub judged : ℕ → Text → Option Binding → Outcome Binding
judged now capability none = raises (http_exception unauthorized)
judged now capability (some b) =
    if leb b.expires_at now then raises (http_exception unauthorized) else permitted b capability

-- `CapabilityRegistry.resolve`, at the time `now`.
unfoldable pub resolve : ℕ → Registry → Text → Text → Outcome Binding
unfolding judged
resolve now registry token capability = judged now capability (lookup token registry)

-- The headers of a request, by their names in lower case.
abbrev pub Headers : Type 0
Headers = Dict Text Text

-- `request.headers.get(name, default)`
abbrev pub header : Headers → Text → Text → Text
header headers name default = get_or (lookup name headers) default

-- `_run_token`
unfoldable pub run_token : Headers → Text
unfolding strip starts_with remove_prefix
run_token headers =
    let auth = header headers (codes "authorization") [] in
    let token =
      if starts_with auth (codes "Bearer ")
      then strip (remove_prefix auth (codes "Bearer "))
      else [] in
    text_or token (
      text_or (header headers (codes "x-api-key") [])
        (header headers (codes "x-run-capability-token") []))

abbrev count_items : Items → ℕ
count_items nil = 0
count_items (cons _ xs) = suc (count_items xs)

abbrev count_fields : Fields → ℕ
count_fields end = 0
count_fields (field _ _ fs) = suc (count_fields fs)

-- `len(v)`
unfoldable pub len : Json → Outcome ℕ
len (string s) = returns (length s)
len (array xs) = returns (count_items xs)
len (object fs) = returns (count_fields fs)
len _ = raises type_error

-- The key under which the registry holds a token that JSON gave: a list or a dict is not hashable.
unfoldable pub token_key : Json → Outcome Text
token_key (string s) = returns s
token_key _ = raises type_error

-- `CapabilityBinding.model_validate(body["binding"])` is an argument.
unfoldable pub registered : (Json → Option Binding) → Json → Registry → Outcome Registry
unfolding get len index token_key register
registered validate body registry = do
  found ← get body (codes "token")
  let token = get_or found (string [])
  n ← len token
  if ltb n 20 then raises (http_exception bad_request) else (do
    node ← index body (codes "binding")
    binding ← valid (validate node)
    key ← token_key token
    returns (register key binding registry))

-- `register_binding`, on the text of the header and the body as `request.json()` gives it.
unfoldable pub register_binding :
    (Json → Option Binding) → Text → Text → Option Json → Registry → Outcome Registry
unfolding registered
register_binding validate secret given body registry =
    if not (nonempty secret)
    then raises (http_exception service_unavailable)
    else if not (given == secret)
    then raises (http_exception forbidden)
    else elim body [ none ↦ raises value_error | some v ↦ registered validate v registry ]
