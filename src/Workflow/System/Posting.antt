-- ===== src/Workflow/System/Posting.antt =====
-- src/workflows/pr_autofix.py: what arrives while `post_status` is in flight.
use agentic_temporal_wf.Workflow.System.Induction.{run_inputs-append}
use agentic_temporal_wf.Workflow.System.{
  status_posted, Input, signal, update, resume, main_input, System, after_posting, step, react,
  run_inputs,
}
use agentic_temporal_wf.Workflow.Run.{posting}
use agentic_temporal_wf.Workflow.Keys.{HexDigest}
use agentic_temporal_wf.Lifecycle.Status.{Reply, post_status as post_status_outcome}
use agentic_temporal_wf.Lifecycle.Status.Laws.{post_status-forget_ids}
use agentic_temporal_wf.Models.{WorkflowState, FixPlan}
use agentic_temporal_wf.Base.{
  Bool, true, false, ◌&&◌, List, [], ◌∷◌, ◌++◌, ◌≡◌, refl, ◌∙◌, inl, inr, arith, Option-cases,
  returns, nat_eq, text_eq,
}
use agentic_temporal_wf.Base.Text.{Text}
use agentic_temporal_wf.Base.Dict.{lookup}

-- Signals, updates and what update handlers wait for: all but the inputs of `run` itself.
abbrev pub is_background : Input → Bool
is_background (main_input _) = false
is_background _ = true

abbrev pub only_background : List Input → Bool
only_background [] = true
only_background (i ∷ is) = is_background i && only_background is

module _ (h : HexDigest) (workflow_id : Text) where
  react-main :
      (i : Input) (s : System) → is_background i ≡ true → (react h workflow_id i s).main ≡ s.main
  unfolding react
  react-main (signal sig) s b = refl
  react-main (update n request) s b = elim (Option-cases (lookup n s.handlers)) [
    | inl new ↦ rw (new, react)
    | inr (handler, known) ↦ rw (known, react)
  ]
  react-main (resume n i) s b = elim (Option-cases (lookup n s.handlers)) [
    | inl missing ↦ rw (missing, react)
    | inr (handler, known) ↦ rw (known, react)
  ]
  react-main (main_input i) s b = cc

  background-main :
      (is : List Input) (s : System)
      → only_background is ≡ true
      → (run_inputs h workflow_id s is).main ≡ s.main
  unfolding run_inputs
  background-main [] s b = refl
  background-main (i ∷ is) s b =
      background-main is (step h workflow_id s i) (ground arith)
      ∙ ground (arith, react-main i s (ground arith))

  posted-state :
      (comment check : Reply) (again : Bool) (s : System) {sent : WorkflowState} {p : FixPlan}
      {t : WorkflowState}
      → s.main ≡ posting sent p
      → post_status_outcome comment check sent ≡ returns t
      → (step h workflow_id s (main_input (status_posted comment check again))).workflow.state ≡ t
  unfolding step
  posted-state comment check again s at_post ok =
      rw (at_post, step) (rw (ok, after_posting) (ground arith))

-- Whatever signals, updates and handler inputs come while `post_status` is in flight on the state
-- `sent`: after it has returned, the queue, the set of delivery ids, the `closed` flag and the
-- operations are those that were sent, so the events, the closing and the results that came in
-- between are lost.
pub posting_discards :
    (h : HexDigest) (workflow_id : Text) (comment check : Reply) (again : Bool)
    (between : List Input) (s : System) {sent t : WorkflowState} {p : FixPlan}
    → s.main ≡ posting sent p
    → post_status_outcome comment check sent ≡ returns t
    → only_background between ≡ true
    → let s' =
        run_inputs h workflow_id s
          (between ++ main_input (status_posted comment check again) ∷ []) in
      let u = s'.workflow.state in
      (u.pending_events ≡ sent.pending_events)
      × (u.processed_delivery_ids ≡ sent.processed_delivery_ids)
      × (u.closed ≡ sent.closed)
      × (u.operations ≡ sent.operations)
unfolding run_inputs
posting_discards h workflow_id comment check again between s at_post ok b =
    let mid = run_inputs h workflow_id s between in
    let last =
      posted-state h workflow_id comment check again mid
        (background-main h workflow_id between s b ∙ at_post) ok in
    let same = post_status-forget_ids comment check _ ok in
    rw (run_inputs-append h workflow_id between) (ground (arith, last, same))
