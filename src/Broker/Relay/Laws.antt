-- ===== src/Broker/Relay/Laws.antt =====
-- src/proxy/credential_proxy.py: the requests of `anthropic_relay`.
use agentic_temporal_wf.Base.{ℕ, ◌<◌, true, Option, none, some, [], ◌∷◌, ◌++◌, inl, inr}
use agentic_temporal_wf.Base.{text_eq, contains, ◌≡◌, refl, sym, ap, ◌∙◌, arith}
use agentic_temporal_wf.Base.{returns, >>=-eq-returns, Bool-cases}
use agentic_temporal_wf.Base.Text.{Text, codes}
use agentic_temporal_wf.Base.Dict.{lookup, lookup-insert}
use agentic_temporal_wf.Broker.Registry.{Binding, Registry, Headers, resolve, run_token}
use agentic_temporal_wf.Broker.Registry.Laws.{resolve_lem}
use agentic_temporal_wf.Broker.Relay.{
  RelayRequest, Upstream, supported, base_headers, with_beta, anthropic_relay,
}

base-key :
    (anthropic_key : Text) (headers : Headers)
    → lookup (codes "x-api-key") (base_headers anthropic_key headers) ≡ some anthropic_key
unfolding lookup text_eq
base-key anthropic_key headers = refl

with_beta-key :
    (beta : Option Text) (headers : Headers)
    → lookup (codes "x-api-key") (with_beta beta headers) ≡ lookup (codes "x-api-key") headers
unfolding text_eq
with_beta-key none headers = refl
with_beta-key (some []) headers = refl
with_beta-key (some (c ∷ beta)) headers =
    lookup-insert (codes "x-api-key") (codes "anthropic-beta") (c ∷ beta) headers

-- A request goes on to Anthropic only for a token with a binding that has not expired and that may
-- invoke the model, and only for a path that is `v1/messages` or is written with `v1/messages/` in
-- front. It carries the broker's key in
-- place of whatever key the sandbox sent, to the fixed host, with the sandbox's method and body.
pub anthropic_relay-guards :
    (anthropic_key : Text) (now : ℕ) (registry : Registry) (request : RelayRequest) {u : Upstream}
    → anthropic_relay anthropic_key now registry request ≡ returns u
    → ((b : Binding) × (lookup (run_token request.headers) registry ≡ some b)
        × (now < b.expires_at)
        × (contains b.capabilities (codes "model.invoke") ≡ true))
      × (supported request.path ≡ true)
      × (u.url ≡ codes "https://api.anthropic.com/" ++ request.path)
      × (lookup (codes "x-api-key") u.headers ≡ some anthropic_key)
      × (u.method ≡ request.method)
      × (u.content ≡ request.body)
unfolding anthropic_relay
anthropic_relay-guards anthropic_key now registry request {u} e =
    let token = run_token request.headers in
    let (b, known, e1) = >>=-eq-returns (resolve now registry token (codes "model.invoke")) _ e in
    let (resolved, _, _) = resolve_lem now registry token (codes "model.invoke") in
    let (found, early, able) = (resolved b).0 known in
    let beta = lookup (codes "anthropic-beta") request.headers in
    let key =
      with_beta-key beta (base_headers anthropic_key request.headers)
      ∙ base-key anthropic_key request.headers in
    elim (Bool-cases (supported request.path)) [
      | inr other ↦ absurd (ground (arith, other, e1))
      | inl good ↦ (
        (b, found, early, able),
        good,
        ground (arith, good, e1),
        ground (arith, good, e1, key),
        ground (arith, good, e1),
        ground (arith, good, e1),
      )
    ]

-- What is sent on for a request.
abbrev sent_on : Text → RelayRequest → Upstream
sent_on anthropic_key request = record {
  method = request.method;
  url = codes "https://api.anthropic.com/" ++ request.path;
  params = request.query;
  headers =
      with_beta (lookup (codes "anthropic-beta") request.headers)
        (base_headers anthropic_key request.headers);
  content = request.body;
}

anthropic_relay-sent_on :
    (anthropic_key : Text) (now : ℕ) (registry : Registry) (request : RelayRequest) {u : Upstream}
    → anthropic_relay anthropic_key now registry request ≡ returns u
    → u ≡ sent_on anthropic_key request
unfolding anthropic_relay
anthropic_relay-sent_on anthropic_key now registry request {u} e =
    let token = run_token request.headers in
    let (b, known, e1) = >>=-eq-returns (resolve now registry token (codes "model.invoke")) _ e in
    elim (Bool-cases (supported request.path)) [
      | inr other ↦ absurd (ground (arith, other, e1))
      | inl good ↦ let r = rw good at e1 in cc (r)
    ]

-- The same value, or none, of a header.
abbrev pub SameHeader : Text → RelayRequest → RelayRequest → Type 0
SameHeader name r q = lookup name r.headers ≡ lookup name q.headers

-- Two requests that the relay sends on, with the same method, path, query and body, and the same
-- version, beta and content type among their headers, are sent on as the same request, which carries
-- the broker's key: no other header goes to Anthropic, and so neither the token of the run nor a key
-- of the sandbox does.
pub anthropic_relay-headers :
    (anthropic_key : Text) (now later : ℕ) (registry registry' : Registry) (r q : RelayRequest)
    {u v : Upstream}
    → anthropic_relay anthropic_key now registry r ≡ returns u
    → anthropic_relay anthropic_key later registry' q ≡ returns v
    → r.method ≡ q.method
    → r.path ≡ q.path
    → r.query ≡ q.query
    → r.body ≡ q.body
    → SameHeader (codes "anthropic-version") r q
    → SameHeader (codes "anthropic-beta") r q
    → SameHeader (codes "content-type") r q
    → (u ≡ v) × (lookup (codes "x-api-key") u.headers ≡ some anthropic_key)
anthropic_relay-headers anthropic_key now later registry registry' r q {u} sent sent' m p s b
      version beta kind =
    let here = anthropic_relay-sent_on anthropic_key now registry r sent in
    let there = anthropic_relay-sent_on anthropic_key later registry' q sent' in
    let same : sent_on anthropic_key r ≡ sent_on anthropic_key q =
      rw (m, p, s, b, version, beta, kind) refl in
    let key =
      with_beta-key (lookup (codes "anthropic-beta") r.headers)
        (base_headers anthropic_key r.headers)
      ∙ base-key anthropic_key r.headers in
    (
      here ∙ same ∙ sym there,
      ap (λ (x : Upstream). lookup (codes "x-api-key") x.headers) here ∙ key,
    )
