-- ===== src/Lifecycle/Approval.antt =====
-- src/activities/approval.py: the comment that asks for an approval.
pub mod Laws
use agentic_temporal_wf.Base.{
  ℕ, ◌++◌, Option, none, some, List, [], ◌∷◌, Outcome, returns, raises, key_error, ◌>>◌, ◌>>=◌, ⊤,
}
use agentic_temporal_wf.Base.Text.{Text, codes, show}
use agentic_temporal_wf.Lifecycle.Status.{Reply, checked}
use agentic_temporal_wf.Models.{ApprovalRequest, OperationRequest}

-- `_render_approval_comment`; `repr` writes the dict of the tool's input.
unfoldable pub render_approval_comment : (OperationRequest → Text) → ApprovalRequest → Text
render_approval_comment repr req =
    codes "**AutoFix needs approval** for `"
    ++ req.tool_name
    ++ codes "` (approval_id `"
    ++ req.approval_id
    ++ codes "`).\n\n```\n"
    ++ repr req.tool_input
    ++ codes "\n```\n\nReply with `"
    ++ (codes "/autofix approve " ++ req.approval_id)
    ++ codes "` or `"
    ++ (codes "/autofix deny " ++ (req.approval_id ++ codes " <reason>"))
    ++ codes "` to resolve."

-- The comment that is posted: its URL, the `Authorization` header and the body.
pub record Comment : Type 0 where
  pub url : Text
  pub authorization : Text
  pub body : Text

-- What `notify_human_for_approval` posts.
unfoldable pub approval_comment :
    (OperationRequest → Text) → Text → Text → Text → ℕ → ApprovalRequest → Comment
unfolding render_approval_comment
approval_comment repr token pr_owner pr_repo pr_number req = record {
  url =
      codes "https://api.github.com/repos/"
      ++ pr_owner
      ++ codes "/"
      ++ pr_repo
      ++ codes "/issues/"
      ++ show pr_number
      ++ codes "/comments";
  authorization = codes "Bearer " ++ token;
  body = render_approval_comment repr req;
}

-- `notify_human_for_approval`, with what was posted: `token` is the value of `GITHUB_TOKEN`, and
-- `answer` is what GitHub answers.
unfoldable pub notify_human_for_approval :
    (OperationRequest → Text)
    → Option Text
    → (Comment → Reply)
    → Text
    → Text
    → ℕ
    → ApprovalRequest
    → Outcome ⊤ × List Comment
unfolding approval_comment checked
notify_human_for_approval repr none answer pr_owner pr_repo pr_number req = (raises key_error, [])
notify_human_for_approval repr (some token) answer pr_owner pr_repo pr_number req =
    let comment = approval_comment repr token pr_owner pr_repo pr_number req in
    (checked (answer comment) >> returns tt, comment ∷ [])
