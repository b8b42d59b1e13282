-- ===== src/Broker/Relay.antt =====
-- `anthropic_relay`: the requests that go on to Anthropic, with the broker's key.
pub mod Laws
use agentic_temporal_wf.Base.{
  ℕ, Bool, true, false, ◌||◌, not, Option, none, some, List, [], ◌∷◌, ◌++◌,
}
use agentic_temporal_wf.Base.{◌==◌, text_eq, if◌then◌else◌}
use agentic_temporal_wf.Base.{Outcome, returns, raises, ◌>>=◌, ◌>>◌, http_exception, not_found}
use agentic_temporal_wf.Base.Text.{Text, codes, starts_with, nonempty}
use agentic_temporal_wf.Base.Dict.{Dict, lookup, insert}
use agentic_temporal_wf.Broker.Registry.{Registry, Headers, header, resolve, run_token}

-- A request of the sandbox; `path` is the part of its URL after `/anthropic/`.
pub record RelayRequest : Type 0 where
  pub method : Text
  pub path : Text
  pub query : Text
  pub headers : Headers
  pub body : List ℕ

-- The request that is sent upstream.
pub record Upstream : Type 0 where
  pub method : Text
  pub url : Text
  pub params : Text
  pub headers : Headers
  pub content : List ℕ

unfoldable pub supported : Text → Bool
unfolding starts_with
supported path = path == codes "v1/messages" || starts_with path (codes "v1/messages/")

abbrev pub base_headers : Text → Headers → Headers
base_headers anthropic_key headers =
    (codes "x-api-key", anthropic_key)
    ∷ (codes "anthropic-version", header headers (codes "anthropic-version") (codes "2023-06-01"))
    ∷ (codes "content-type", header headers (codes "content-type") (codes "application/json"))
    ∷ []

-- A header that is missing or empty is left out.
abbrev pub with_beta : Option Text → Headers → Headers
with_beta none headers = headers
with_beta (some beta) headers =
    if nonempty beta then insert (codes "anthropic-beta") beta headers else headers

-- `anthropic_relay`, up to the request that it sends.
unfoldable pub anthropic_relay : Text → ℕ → Registry → RelayRequest → Outcome Upstream
unfolding resolve run_token supported
anthropic_relay anthropic_key now registry request = do
  resolve now registry (run_token request.headers) (codes "model.invoke")
  if not (supported request.path)
      then raises (http_exception not_found)
      else returns (record {
        method = request.method;
        url = codes "https://api.anthropic.com/" ++ request.path;
        params = request.query;
        headers =
            with_beta (lookup (codes "anthropic-beta") request.headers)
              (base_headers anthropic_key request.headers);
        content = request.body;
      })
