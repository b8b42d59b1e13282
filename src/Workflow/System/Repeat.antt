-- ===== src/Workflow/System/Repeat.antt =====
-- src/workflows/pr_autofix.py: a second request under the same key.
use agentic_temporal_wf.Workflow.System.Approval.{step-resume, step-update}
use agentic_temporal_wf.Workflow.System.Publication.{until_decision, push_result_of}
use agentic_temporal_wf.Workflow.System.{
  wake, timeout, push_error, push_result, update, resume, System, on_handler, step, is_over,
  run_inputs, apply_handler, stay, Input,
}
use agentic_temporal_wf.Workflow.Keys.{HexDigest, push_operation_key}
use agentic_temporal_wf.Workflow.{Workflow}
use agentic_temporal_wf.Workflow.Request.{
  awaiting_prior, pushing, answered, aborted, begin_request, is_pending, check_prior, result_of,
}
use agentic_temporal_wf.Models.{OperationStatus, CommitResult, OperationResult, OperationRequest}
use agentic_temporal_wf.Base.{
  ℕ, Bool, true, false, none, some, List, zero, suc, [], ◌∷◌, ◌++◌, ◌≡◌, ◌≢◌, refl, sym, ap, ◌∙◌,
  arith, if◌then◌else◌, nat_eq, text_eq, append-nil, activity_error, timeout_error,
}
use agentic_temporal_wf.Base.Text.{Text}
use agentic_temporal_wf.Base.Dict.{Dict, insert, lookup, lookup-insert_self, lookup-insert_ne}

module _ (h : HexDigest) (id : Text) where
  -- The key of the system's present iteration.
  abbrev pub key_of : System → Text
  key_of s = push_operation_key h id s.workflow.state.iterations

  step-update_known :
      (m : ℕ) (request : OperationRequest) (s : System) (prior : OperationResult)
      → is_over s.main ≡ false
      → lookup m s.handlers ≡ none
      → lookup (key_of s) s.workflow.state.operations ≡ some prior
      → step h id s (update m request)
        ≡ apply_handler m s (
            stay
              (if is_pending prior.status then awaiting_prior (key_of s) else answered prior)
              s.workflow)
  step-update_known m request s prior going free known =
      rw (step-update h id m request s going free)
        (unfold begin_request in rw (known, begin_request))

  pending_update :
      (m : ℕ) (request : OperationRequest) (s : System) (prior : OperationResult)
      → is_over s.main ≡ false
      → lookup m s.handlers ≡ none
      → lookup (key_of s) s.workflow.state.operations ≡ some prior
      → is_pending prior.status ≡ true
      → step h id s (update m request)
        ≡ apply_handler m s (stay (awaiting_prior (key_of s)) s.workflow)
  pending_update m request s prior going free known pending =
      rw (step-update_known m request s prior going free known) (rw pending)

  check_prior-waits :
      (k : Text) (w : Workflow) (prior : OperationResult)
      → lookup k w.state.operations ≡ some prior
      → is_pending prior.status ≡ true
      → check_prior k w ≡ awaiting_prior k
  unfolding check_prior
  check_prior-waits k w prior known pending = rw (known, check_prior) (rw pending)

  -- So many evaluations of the condition of a handler.
  abbrev pub wakes : ℕ → ℕ → List Input
  wakes m zero = []
  wakes m (suc count) = resume m wake ∷ wakes m count

  insert_again :
      {A : Type 0} (m : ℕ) (a : A) (d : Dict ℕ A) → insert m a (insert m a d) ≡ insert m a d
  unfolding insert
  insert_again m a [] = ground arith
  insert_again m a ((k, v) ∷ d) = ground (arith, insert_again m a d)

  wakes_wait :
      (m count : ℕ) (k : Text) (s : System) (prior : OperationResult)
      → is_over s.main ≡ false
      → lookup k s.workflow.state.operations ≡ some prior
      → is_pending prior.status ≡ true
      → let s' = apply_handler m s (stay (awaiting_prior k) s.workflow) in
        run_inputs h id s' (wakes m count) ≡ s'
  unfolding run_inputs
  wakes_wait m zero k s prior going known pending = refl
  wakes_wait m (suc count) k s prior going known pending =
      let s' = apply_handler m s (stay (awaiting_prior k) s.workflow) in
      let woken : step h id s' (resume m wake)
          ≡ apply_handler m s' (stay (awaiting_prior k) s'.workflow) =
        rw
          (step-resume h id m wake s' (awaiting_prior k) going
            (lookup-insert_self m (awaiting_prior k) s.handlers))
          (unfold on_handler in rw (check_prior-waits k s.workflow prior known pending)) in
      let same : apply_handler m s' (stay (awaiting_prior k) s'.workflow) ≡ s' =
        simp (append-nil, insert_again) in
      ap (λ (x : System). run_inputs h id x (wakes m count)) (woken ∙ same)
      ∙ wakes_wait m count k s prior going known pending

  -- A push that raises: its handler ends with the exception and leaves the operation pending. A
  -- repeated request of the same iteration then waits, however often its condition is evaluated,
  -- until its timer ends it with a timeout; it schedules nothing, and the operation is still pending.
  pub push_error-pending :
      (n m count : ℕ) (request again : OperationRequest) (s : System) (prior : OperationResult)
      → is_over s.main ≡ false
      → n ≢ m
      → lookup n s.handlers ≡ some (pushing (key_of s) request)
      → lookup m s.handlers ≡ none
      → lookup (key_of s) s.workflow.state.operations ≡ some prior
      → is_pending prior.status ≡ true
      → let waiting = run_inputs h id s (resume n push_error ∷ update m again ∷ wakes m count) in
        let s' = step h id waiting (resume m timeout) in
        (lookup n s'.handlers ≡ some (aborted activity_error))
        × (lookup m waiting.handlers ≡ some (awaiting_prior (key_of s)))
        × (lookup m s'.handlers ≡ some (aborted timeout_error))
        × (lookup (key_of s) s'.workflow.state.operations ≡ some prior)
        × (s'.commands ≡ s.commands)
  unfolding run_inputs
  push_error-pending n m count request again s prior going ne at_push free known pending =
      let k = key_of s in
      let s1 = apply_handler n s (stay (aborted activity_error) s.workflow) in
      let s2 = apply_handler m s1 (stay (awaiting_prior k) s1.workflow) in
      let s4 = apply_handler m s2 (stay (aborted timeout_error) s2.workflow) in
      let e1 : step h id s (resume n push_error) ≡ s1 =
        rw (step-resume h id n push_error s (pushing k request) going at_push)
          (unfold on_handler in refl) in
      let free' : lookup m s1.handlers ≡ none =
        lookup-insert_ne m n (aborted activity_error) s.handlers (λ e. ne (sym e)) ∙ free in
      let e2 : step h id s1 (update m again) ≡ s2 =
        pending_update m again s1 prior going free' known pending in
      let e3 : run_inputs h id s2 (wakes m count) ≡ s2 =
        wakes_wait m count k s1 prior going known pending in
      let waited : run_inputs h id s (resume n push_error ∷ update m again ∷ wakes m count) ≡ s2 =
        ap (λ (x : System). run_inputs h id (step h id x (update m again)) (wakes m count)) e1
        ∙ ap (λ (x : System). run_inputs h id x (wakes m count)) e2
        ∙ e3 in
      let e4 : step h id s2 (resume m timeout) ≡ s4 =
        rw
          (step-resume h id m timeout s2 (awaiting_prior k) going
            (lookup-insert_self m (awaiting_prior k) s1.handlers))
          (unfold on_handler in refl) in
      rw (waited, e4)
        (
          lookup-insert_ne n m (aborted timeout_error) _ ne
              ∙ lookup-insert_ne n m (awaiting_prior k) _ ne
              ∙ lookup-insert_self n (aborted activity_error) s.handlers,
          lookup-insert_self m (awaiting_prior k) s1.handlers,
          lookup-insert_self m (aborted timeout_error) _,
          known,
          simp append-nil,
        )

-- The inputs of a request that is decided and, if it is allowed, pushed; and what it returns.
abbrev pub first_inputs : ℕ → OperationRequest → Text → Bool → Text → CommitResult → List Input
first_inputs n request k true reason commit =
    until_decision n request k true reason ++ resume n (push_result commit) ∷ []
first_inputs n request k false reason commit = until_decision n request k false reason

abbrev pub first_result : Text → Bool → Text → CommitResult → OperationResult
first_result k true reason commit = push_result_of k commit
first_result k false reason commit = result_of k OperationStatus.denied (some false) none reason
