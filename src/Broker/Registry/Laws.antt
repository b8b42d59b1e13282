-- ===== src/Broker/Registry/Laws.antt =====
-- src/proxy/credential_proxy.py: `resolve` and `register_binding`.
use agentic_temporal_wf.Base.{ℕ, ◌≤◌, ◌<◌, true, false, Option, none, some, [], ◌↔◌, inl, inr}
use agentic_temporal_wf.Base.{
  ◌==◌, text_eq, contains, get_or, if◌then◌else◌, ltb, length, ◌≡◌, refl, ap, ◌∙◌, arith,
}
use agentic_temporal_wf.Base.{
  returns, raises, >>=-eq-returns, http_exception, unauthorized, forbidden, Option-cases,
  Bool-cases,
}
use agentic_temporal_wf.Base.Text.{Text, codes, nonempty}
use agentic_temporal_wf.Base.Dict.{lookup, lookup-insert, lookup-insert_self}
use agentic_temporal_wf.Base.Json.{Json, string, array, object, number, null, boolean, get, index}
use agentic_temporal_wf.Models.{valid}
use agentic_temporal_wf.Broker.Registry.{
  Binding, Registry, register, judged, resolve, len, token_key, registered, register_binding,
}

judged-returns :
    (now : ℕ) (capability : Text) (c : Binding)
    → now < c.expires_at
    → contains c.capabilities capability ≡ true
    → judged now capability (some c) ≡ returns c
unfolding judged
judged-returns now capability c t k = ground arith

judged-forbidden :
    (now : ℕ) (capability : Text) (c : Binding)
    → now < c.expires_at
    → contains c.capabilities capability ≡ false
    → judged now capability (some c) ≡ raises (http_exception forbidden)
unfolding judged
judged-forbidden now capability c t k = ground arith

judged-expired :
    (now : ℕ) (capability : Text) (c : Binding)
    → judged now capability (some c) ≡ raises (http_exception unauthorized)
    → c.expires_at ≤ now
unfolding judged
judged-expired now capability c e = ground arith

judged_lem :
    (now : ℕ) (capability : Text) (found : Option Binding)
    → ((b : Binding)
        → (judged now capability found ≡ returns b)
          ↔ ((found ≡ some b) × (now < b.expires_at) × (contains b.capabilities capability ≡ true)))
      × ((judged now capability found ≡ raises (http_exception forbidden)) ↔ (
          (b : Binding) × (found ≡ some b)
          × (now < b.expires_at)
          × (contains b.capabilities capability ≡ false)))
      × ((judged now capability found ≡ raises (http_exception unauthorized))
          ↔ ((b : Binding) → found ≡ some b → b.expires_at ≤ now))
unfolding judged
judged_lem now capability none = (
  λ b. (λ e. cc, λ h. let (e, _, _) = h in cc),
  (λ e. cc, λ h. let (_, e, _, _) = h in cc),
  (λ _ b e. cc, λ _. refl),
)
judged_lem now capability (some c) = (
  λ b. (
    λ e.
        let same : c ≡ b = ground (arith, e) in
        let early : now < c.expires_at = ground (arith, e) in
        let able : contains c.capabilities capability ≡ true = ground (arith, e) in
        (ap some same, rw same at early, rw same at able),
    λ h.
        let (e, t, k) = h in
        let same : c ≡ b = ground (arith, e) in
        judged-returns now capability c (rw same t) (rw same k) ∙ ap returns same,
  ),
  (
    λ e. (c, refl, ground (arith, e), ground (arith, e)),
    λ h.
        let (b, e, t, k) = h in
        let same : c ≡ b = ground (arith, e) in
        judged-forbidden now capability c (rw same t) (rw same k),
  ),
  (
    λ r b e. let same : c ≡ b = ground (arith, e) in rw same at (judged-expired now capability c r),
    λ all. ground (arith, all c refl),
  ),
)

-- A token resolves to a binding exactly if the registry holds that binding for it, the binding has
-- not expired, and it has the capability; the answer is 403 exactly if only the capability is
-- missing, and 401 exactly if there is no binding for the token that has not expired.
pub resolve_lem :
    (now : ℕ) (registry : Registry) (token capability : Text)
    → ((b : Binding)
        → (resolve now registry token capability ≡ returns b) ↔ (
            (lookup token registry ≡ some b)
            × (now < b.expires_at)
            × (contains b.capabilities capability ≡ true)))
      × ((resolve now registry token capability ≡ raises (http_exception forbidden)) ↔ (
          (b : Binding) × (lookup token registry ≡ some b)
          × (now < b.expires_at)
          × (contains b.capabilities capability ≡ false)))
      × ((resolve now registry token capability ≡ raises (http_exception unauthorized))
          ↔ ((b : Binding) → lookup token registry ≡ some b → b.expires_at ≤ now))
unfolding resolve
resolve_lem now registry token capability = judged_lem now capability (lookup token registry)

len-token_key :
    (token : Json) {n : ℕ} {key : Text}
    → len token ≡ returns n
    → token_key token ≡ returns key
    → ltb n 20 ≡ false
    → 20 ≤ length key
unfolding len token_key
len-token_key (string s) l k long = ground (arith, l, k)
len-token_key null l k long = cc
len-token_key (boolean _) l k long = cc
len-token_key (number _) l k long = cc
len-token_key (array _) l k long = cc
len-token_key (object _) l k long = cc

-- The body names the token, and holds the binding.
pub record Asks (validate : Json → Option Binding) (body : Json) (token : Text) (binding : Binding)
    : Type 0 where
  pub named : get body (codes "token") ≡ returns (some (string token))
  pub node : Json
  pub node_read : index body (codes "binding") ≡ returns node
  pub validated : validate node ≡ some binding

valid-some : {A : Type 0} (o : Option A) {a : A} → valid o ≡ returns a → o ≡ some a
valid-some none e = cc
valid-some (some b) e = cc

token_key-string :
    (found : Option Json) {key : Text}
    → token_key (get_or found (string [])) ≡ returns key
    → 20 ≤ length key
    → found ≡ some (string key)
unfolding token_key
token_key-string none e long = ground (arith, e, long)
token_key-string (some (string s)) e long = cc
token_key-string (some null) e long = cc
token_key-string (some (boolean _)) e long = cc
token_key-string (some (number _)) e long = cc
token_key-string (some (array _)) e long = cc
token_key-string (some (object _)) e long = cc

registered-register :
    (validate : Json → Option Binding) (body : Json) (registry r : Registry)
    → registered validate body registry ≡ returns r
    → (token : Text) × (binding : Binding) × Asks validate body token binding
      × (20 ≤ length token)
      × (r ≡ register token binding registry)
unfolding registered
registered-register validate body registry r e =
    let (found, f1, e1) = >>=-eq-returns (get body (codes "token")) _ e in
    let (n, n1, e2) = >>=-eq-returns (len (get_or found (string []))) _ e1 in
    elim (Bool-cases (ltb n 20)) [
      | inl short ↦ absurd (ground (arith, short, e2))
      | inr long ↦
          let (node, n_read, e3) =
            >>=-eq-returns (index body (codes "binding")) _ (rw long at e2) in
          let (binding, b_read, e4) = >>=-eq-returns (valid (validate node)) _ e3 in
          let (key, k1, e5) = >>=-eq-returns (token_key (get_or found (string []))) _ e4 in
          let enough = len-token_key _ n1 k1 long in
          (
            key,
            binding,
            record {
              named = f1 ∙ ap returns (token_key-string found k1 enough);
              node = node;
              node_read = n_read;
              validated = valid-some (validate node) b_read;
            },
            enough,
            ground (arith, e5),
          )
    ]

resolve-register :
    (registry : Registry) (token other : Text) (binding : Binding) (now : ℕ) (capability : Text)
    → resolve now (register token binding registry) other capability ≡ (
        if other == token
        then judged now capability (some binding)
        else resolve now registry other capability)
unfolding resolve register
resolve-register registry token other binding now capability = elim (Bool-cases (other == token)) [
  | inl same ↦ rw (lookup-insert other token binding registry) (rw same)
  | inr differs ↦ rw (lookup-insert other token binding registry) (rw differs)
]

pub register-resolves :
    (registry : Registry) (token : Text) (binding : Binding) (now : ℕ) (capability : Text)
    → now < binding.expires_at
    → contains binding.capabilities capability ≡ true
    → resolve now (register token binding registry) token capability ≡ returns binding
unfolding resolve register
register-resolves registry token binding now capability t k =
    rw (lookup-insert_self token binding registry) (judged-returns now capability binding t k)

-- The registration endpoint lets a binding in only with the secret, which must be set, and only
-- for a token of at least 20 characters: the token that the body names, with the binding that the
-- body holds. At all times that token then resolves by the checks on this binding, and every other
-- token resolves as before.
pub register_binding-guards :
    (validate : Json → Option Binding) (secret given : Text) (body : Option Json)
    (registry r : Registry)
    → register_binding validate secret given body registry ≡ returns r
    → (nonempty secret ≡ true)
      × (given ≡ secret)
      × ((v : Json) × (token : Text) × (binding : Binding) × (body ≡ some v)
          × Asks validate v token binding
          × (20 ≤ length token)
          × ((now : ℕ) (other capability : Text)
              → resolve now r other capability ≡ (
                  if other == token
                  then judged now capability (some binding)
                  else resolve now registry other capability)))
unfolding register_binding
register_binding-guards validate secret given body registry r e = elim (Option-cases body) [
  | inl no_json ↦ absurd (ground (arith, no_json))
  | inr (v, is_v) ↦
      let set : nonempty secret ≡ true = ground (arith, is_v) in
      let same : given ≡ secret = ground (arith, is_v) in
      let e' : registered validate v registry ≡ returns r = ground (arith, is_v) in
      let (token, binding, asks, long, is_r) = registered-register validate v registry r e' in
      (
        set,
        same,
        (
          v,
          token,
          binding,
          is_v,
          asks,
          long,
          λ now other capability.
              ap (λ (x : Registry). resolve now x other capability) is_r
              ∙ resolve-register registry token other binding now capability,
        ),
      )
]
