-- ===== src/Lifecycle/Push/Trailer.antt =====
-- src/activities/lifecycle.py: the commit message, and the gateway's self-trigger guard.
use agentic_temporal_wf.Base.{true, ◌≡◌, ap, ◌∙◌, ◌++◌, append_assoc}
use agentic_temporal_wf.Base.Text.{Text, codes, has_infix, has_infix-append}
use agentic_temporal_wf.Models.{PrRef, GitHubEvent, pr_synchronize}
use agentic_temporal_wf.Gateway.Webhook.{Externals, is_own_commit}
use agentic_temporal_wf.Lifecycle.Push.{full_message, autofix_commit_trailer}

full_message-trailer :
    (message operation_key : Text)
    → has_infix (full_message message operation_key) autofix_commit_trailer ≡ true
unfolding full_message
full_message-trailer message operation_key =
    ap (λ (t : Text). has_infix t autofix_commit_trailer)
      (append_assoc (message ++ codes "\n\n" ++ autofix_commit_trailer)
          (codes "\nAutofix-Idempotency: ") operation_key
        ∙ append_assoc (message ++ codes "\n\n") autofix_commit_trailer
            (codes "\nAutofix-Idempotency: " ++ operation_key))
    ∙ has_infix-append (message ++ codes "\n\n") autofix_commit_trailer
        (codes "\nAutofix-Idempotency: " ++ operation_key)

-- A `synchronize` event whose head is a commit that the push made, for any message and key, is
-- recognized by the gateway as the agent's own, where the message of the head can be fetched.
pub is_own_commit-full_message :
    (x : Externals) (pr : PrRef) (event : GitHubEvent) (message operation_key : Text)
    → event.kind ≡ pr_synchronize
    → x.fetch_commit_message pr.owner pr.repo pr.head_sha ≡ full_message message operation_key
    → is_own_commit x pr event ≡ true
unfolding is_own_commit
is_own_commit-full_message x pr event message operation_key kind fetched =
    let own = full_message-trailer message operation_key in rw (kind, fetched, own)
