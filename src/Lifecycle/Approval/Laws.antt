-- ===== src/Lifecycle/Approval/Laws.antt =====
-- src/activities/approval.py and the gateway's pattern.
use agentic_temporal_wf.Base.{
  ℕ, true, false, ◌≡◌, ap, ◌∙◌, ◌∷◌, ◌++◌, append_assoc, none, some, all, all-take, length-take,
  arith,
}
use agentic_temporal_wf.Base.Text.{Text, codes, has_infix, has_infix-append, is_space}
use agentic_temporal_wf.Base.Regex.{dot}
use agentic_temporal_wf.Models.{OperationRequest}
use agentic_temporal_wf.Workflow.Keys.{HexDigest, IsDigest, is_hex, raw_key, push_operation_key}
use agentic_temporal_wf.Gateway.Command.{match_command}
use agentic_temporal_wf.Gateway.Command.Laws.{IsId, match_command-reply}
use agentic_temporal_wf.Lifecycle.Approval.{render_approval_comment}

-- The key of a push is an id that the gateway's pattern takes.
push_operation_key-IsId :
    (h : HexDigest) (workflow_id : Text) (iteration : ℕ)
    → IsDigest h
    → IsId (push_operation_key h workflow_id iteration)
unfolding push_operation_key
push_operation_key-IsId h workflow_id iteration ok =
    let raw = raw_key workflow_id iteration (codes "push_changes") in
    let many = ok.digits raw in
    let n = length-take 32 (h raw) (omega (arith, many)) in
    record {
      hex = all-take is_hex 32 (h raw) (ok.hex raw);
      at_least = omega (arith, n);
      at_most = omega (arith, n);
    }

-- Of five texts put together, the second and the fourth are in the whole.
five_parts :
    (p a m d e : Text)
    → (has_infix (p ++ a ++ m ++ d ++ e) a ≡ true) × (has_infix (p ++ a ++ m ++ d ++ e) d ≡ true)
five_parts p a m d e =
    let second : p ++ a ++ m ++ d ++ e ≡ p ++ (a ++ (m ++ (d ++ e))) = simp append_assoc in
    let fourth : p ++ a ++ m ++ d ++ e ≡ (p ++ a ++ m) ++ (d ++ e) = simp append_assoc in
    (
      ap (λ (t : Text). has_infix t a) second ∙ has_infix-append p a (m ++ (d ++ e)),
      ap (λ (t : Text). has_infix t d) fourth ∙ has_infix-append (p ++ a ++ m) d e,
    )

-- The approval comment for a push of the workflow shows a reply that approves it and one that denies
-- it, with a reason to fill in. The gateway reads the first as an approval of the push's key, and the
-- second, with any one-line reason that does not begin with white space, as its denial.
pub render_approval_comment-replies :
    (h : HexDigest) (workflow_id : Text) (iteration : ℕ) (repr : OperationRequest → Text)
    (request : OperationRequest) (c : ℕ) (reason : Text)
    → IsDigest h
    → is_space c ≡ false
    → all dot (c ∷ reason) ≡ true
    → let key = push_operation_key h workflow_id iteration in
      let comment = render_approval_comment repr (record {
        approval_id = key;
        tool_name = codes "push_changes";
        tool_input = request;
        iteration = iteration;
      }) in
      (has_infix comment (codes "/autofix approve " ++ key) ≡ true)
      × (has_infix comment (codes "/autofix deny " ++ (key ++ codes " <reason>")) ≡ true)
      × (match_command (codes "/autofix approve " ++ key)
          ≡ some (record { word = codes "approve"; approval_id = key; reason = none }))
      × (match_command (codes "/autofix deny " ++ (key ++ (codes " " ++ c ∷ reason)))
          ≡ some (record { word = codes "deny"; approval_id = key; reason = some (c ∷ reason) }))
unfolding render_approval_comment
render_approval_comment-replies h workflow_id iteration repr request c reason ok letter dots =
    let key = push_operation_key h workflow_id iteration in
    let shown =
      five_parts
        (codes "**AutoFix needs approval** for `push_changes` (approval_id `"
          ++ key
          ++ codes "`).\n\n```\n"
          ++ repr request
          ++ codes "\n```\n\nReply with `")
        (codes "/autofix approve " ++ key) (codes "` or `")
        (codes "/autofix deny " ++ (key ++ codes " <reason>")) (codes "` to resolve.") in
    let read =
      match_command-reply key c reason (push_operation_key-IsId h workflow_id iteration ok) letter
        dots in
    (shown.0, shown.1, read.0, read.1)
