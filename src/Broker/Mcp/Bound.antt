-- ===== src/Broker/Mcp/Bound.antt =====
-- src/proxy/credential_proxy.py: the calls of `mcp` and the binding of its token.
use agentic_temporal_wf.Base.{
  ℕ, ◌<◌, Bool, true, false, Option, none, some, List, [], ◌∷◌, ◌++◌, inl, inr, ◌⊎◌,
}
use agentic_temporal_wf.Base.{
  text_eq, contains, if◌then◌else◌, ◌≡◌, refl, sym, ap, ◌∙◌, arith, All, All-append, append_assoc,
  get_or,
}
use agentic_temporal_wf.Base.{Outcome, Exception, value_error, returns, raises, Outcome-cases}
use agentic_temporal_wf.Base.Text.{Text, codes, show, split_once, split_once-append}
use agentic_temporal_wf.Base.Json.{Json, null, get, index, or_empty, format}
use agentic_temporal_wf.Base.Dict.{lookup}
use agentic_temporal_wf.Models.{valid}
use agentic_temporal_wf.Broker.Registry.{Binding, Registry, Headers, resolve, run_token}
use agentic_temporal_wf.Broker.Registry.Laws.{resolve_lem}
use agentic_temporal_wf.Broker.Mcp.{
  Call, github_get, request_push, Traced, quiet, then_trace, Backend, is_text, ask, field_of,
  operation_request, repo_path, pr_path, both, list_check_results, request_push_changes, call_tool,
  tools_call, dispatch, mcp, ◌>>=◌,
}

both-some :
    (found : Option (Text × Text)) {p : Text × Text} → both found ≡ returns p → found ≡ some p
both-some none e = cc
both-some (some q) e = cc

-- The token has, in the registry and at the time, a binding with the capability.
pub record Grants (now : ℕ) (registry : Registry) (token capability : Text) (b : Binding)
    : Type 0 where
  pub found : lookup token registry ≡ some b
  pub early : now < b.expires_at
  pub able : contains b.capabilities capability ≡ true

resolve-Grants :
    (now : ℕ) (registry : Registry) (token capability : Text) {b : Binding}
    → resolve now registry token capability ≡ returns b
    → Grants now registry token capability b
resolve-Grants now registry token capability {b} e =
    let (found, early, able) = ((resolve_lem now registry token capability).0 b).0 e in
    record { found = found; early = early; able = able }

module _ (x : Backend) (later : ℕ) (registry' : Registry) (headers : Headers) (b : Binding) where
  -- The path of the binding's repository, and of its pull request.
  abbrev pub repository_of : Text
  repository_of = codes "/repos/" ++ b.repository

  abbrev pub pull : Text
  pull = repository_of ++ (codes "/pulls/" ++ show b.pr_number)

  -- A path for the checks of the commit that GitHub gave as the head of the pull request.
  pub record HeadChecks (path : Text) : Type 0 where
    pub pull_request : Json
    pub answered : x.github pull ≡ returns pull_request
    pub head : Json
    pub head_read : index pull_request (codes "head") ≡ returns head
    pub sha : Json
    pub sha_read : index head (codes "sha") ≡ returns sha
    pub same :
        path ≡ repository_of ++ (codes "/commits/" ++ format x.repr sha ++ codes "/check-runs")

  -- A call that stays within the binding: a read of its pull request, of the comments or of the checks
  -- of its head; a push of its workflow, while the token may publish.
  abbrev pub Within : Call → Type 0
  Within (github_get path) = (path ≡ pull) ⊎ ((path ≡ pull ++ codes "/comments") ⊎ HeadChecks path)
  Within (request_push workflow_id _) =
      (workflow_id ≡ b.workflow_id)
      × ((b' : Binding) × Grants later registry' (run_token headers) (codes "changes.publish") b')

  then_trace-Within {ℓ κ} :
      {A : Type ℓ} {B : Type κ} (calls : List Call) (m : Outcome A) (f : A → Traced B)
      → All Within calls
      → ((a : A) → m ≡ returns a → All Within (f a).calls)
      → All Within (then_trace calls m f).calls
  then_trace-Within calls (returns a) f h k = All-append Within calls (f a).calls h (k a refl)
  then_trace-Within calls (raises e) f h k = h

  -- A computation, and what goes on from it.
  bind-Within {ℓ κ} :
      {A : Type ℓ} {B : Type κ} (m : Traced A) (f : A → Traced B)
      → All Within m.calls
      → ((a : A) → m.result ≡ returns a → All Within (f a).calls)
      → All Within (m >>= f).calls
  bind-Within m f h k = then_trace-Within m.calls m.result f h k

  if-Within {ℓ} :
      {A : Type ℓ} (c : Bool) (m n : Traced A)
      → All Within m.calls
      → All Within n.calls
      → All Within (if c then m else n).calls
  if-Within true m n h k = h
  if-Within false m n h k = k

  below :
      (owner repo rest : Text)
      → b.repository ≡ owner ++ b'/' ∷ repo
      → repo_path owner repo ++ rest ≡ repository_of ++ rest
  below owner repo rest e = rw e (simp append_assoc)

  operation_request-Within : (args : Json) → All Within (operation_request x args).calls
  unfolding operation_request
  operation_request-Within args =
      bind-Within (quiet (field_of x args (codes "summary"))) _ tt λ summary _.
        bind-Within (quiet (valid (x.pydantic.str_of summary))) _ tt λ s _.
          bind-Within (quiet (field_of x args (codes "commit_message"))) _ tt
            λ message _. bind-Within (quiet (valid (x.pydantic.str_of message))) _ tt λ m _. tt

  module _ (owner repo : Text) (e : b.repository ≡ owner ++ b'/' ∷ repo) where
    list_check_results-Within :
        All Within (list_check_results x later registry' headers owner repo b).calls
    unfolding list_check_results
    list_check_results-Within =
        let at_pull = below owner repo (codes "/pulls/" ++ show b.pr_number) e in
        bind-Within (ask x (pr_path owner repo b.pr_number)) _ (inl at_pull, tt)
          λ pr answered. bind-Within (quiet (index pr (codes "head"))) _ tt λ head head_read.
            bind-Within (quiet (index head (codes "sha"))) _ tt λ sha sha_read. (
              inr (
                  inr (record {
                    pull_request = pr;
                    answered = ap x.github (sym at_pull) ∙ answered;
                    head = head;
                    head_read = head_read;
                    sha = sha;
                    sha_read = sha_read;
                    same =
                        below owner repo
                          (codes "/commits/" ++ format x.repr sha ++ codes "/check-runs") e;
                  })),
              tt,
            )

    request_push_changes-Within :
        (args : Json) → All Within (request_push_changes x later registry' headers b args).calls
    unfolding request_push_changes
    request_push_changes-Within args =
        bind-Within (quiet (resolve later registry' (run_token headers) (codes "changes.publish")))
          _ tt
          λ b' known.
            bind-Within (operation_request x args) _ (operation_request-Within args) λ request _. (
              (
                refl,
                (
                  b',
                  resolve-Grants later registry' (run_token headers) (codes "changes.publish")
                      known,
                ),
              ),
              tt,
            )

    call_tool-Within :
        (name : Option Json) (args : Json)
        → All Within (call_tool x later registry' headers name args b owner repo).calls
    unfolding call_tool
    call_tool-Within name args =
        let n = b.pr_number in
        let one : Within (github_get (pr_path owner repo n)) =
          inl (below owner repo (codes "/pulls/" ++ show n) e) in
        let two : Within (github_get (pr_path owner repo n ++ codes "/comments")) = inr (
          inl (
            ap (λ (p : Text). p ++ codes "/comments")
              (below owner repo (codes "/pulls/" ++ show n) e))) in
        if-Within (is_text (codes "get_pr_context") name) _ _ (one, tt)
          (if-Within (is_text (codes "list_review_comments") name) _ _ (two, tt)
            (if-Within (is_text (codes "list_check_results") name) _ _ list_check_results-Within (
              if-Within (is_text (codes "request_push_changes") name) _ _
                (request_push_changes-Within args) tt)))

  tools_call-Within :
      (message id : Json) → All Within (tools_call x later registry' headers b message id).calls
  unfolding tools_call
  tools_call-Within message id = bind-Within (quiet (get message (codes "params"))) _ tt λ found _.
      bind-Within (quiet (get (or_empty found) (codes "name"))) _ tt λ name _.
        bind-Within (quiet (get (or_empty found) (codes "arguments"))) _ tt λ given _.
          bind-Within (quiet (both (split_once b'/' b.repository))) _ tt λ parts split.
            bind-Within
              (call_tool x later registry' headers name (or_empty given) b parts.0 parts.1) _
              (call_tool-Within parts.0 parts.1
                (split_once-append b'/' b.repository
                  (both-some (split_once b'/' b.repository) split))
                name (or_empty given))
              λ result _. tt

  dispatch-Within :
      (message : Json) → All Within (dispatch x later registry' headers b message).calls
  unfolding dispatch
  dispatch-Within message = bind-Within (quiet (get message (codes "method"))) _ tt λ method _.
      bind-Within (quiet (get message (codes "id"))) _ tt λ found _.
        if-Within (is_text (codes "initialize") method) _ _ tt (
          if-Within (is_text (codes "notifications/initialized") method) _ _ tt (
            if-Within (is_text (codes "tools/list") method) _ _ tt (
              if-Within (is_text (codes "tools/call") method) _ _
                (tools_call-Within message (get_or found null)) tt)))

-- Whatever a sandbox sends to `/mcp`: either its token has no binding that has not expired and may
-- read, then the request is refused, and nothing is called; or it has one, and all that is read of
-- GitHub is the binding's pull request, its comments, and the checks of the commit that GitHub gives
-- as its head; and each push is requested of the binding's workflow, of a token that may publish at
-- that time.
pub mcp-bound :
    (x : Backend) (now later : ℕ) (registry registry' : Registry) (headers : Headers)
    (body : Option Json)
    → let answer = mcp x later registry' headers now registry body in
      ((answer.calls ≡ []) × ((e : Exception) × (answer.result ≡ raises e)))
      ⊎ ((b : Binding) × Grants now registry (run_token headers) (codes "source.read") b
          × All (Within x later registry' headers b) answer.calls)
unfolding mcp
mcp-bound x now later registry registry' headers body =
    let token = run_token headers in
    elim (Outcome-cases (resolve now registry token (codes "source.read"))) [
      | inr (e, refused) ↦ inl (ground (arith, refused), (e, ground (arith, refused)))
      | inl (b, known) ↦ inr (
        b,
        resolve-Grants now registry token (codes "source.read") known,
        rw known (
            bind-Within x later registry' headers b
              (quiet (elim body [ none ↦ raises value_error | some v ↦ returns v ])) _ tt
              λ message _. dispatch-Within x later registry' headers b message),
      )
    ]
