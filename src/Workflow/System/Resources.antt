-- ===== src/Workflow/System/Resources.antt =====
-- src/workflows/pr_autofix.py: the commands that make and give back the workspace and the sandbox.
use agentic_temporal_wf.Workflow.System.Induction.{
  InvariantOn, AllowedInput, run_allowed_keeps, fixed, on_signal-fixed, begin_request-fixed,
  on_handler-fixed,
}
use agentic_temporal_wf.Workflow.System.{
  workdir_ready, workdir_error, sandbox_error, sandbox_ready, wake_run, idle_timer, plan,
  main_input, iteration_error, status_posted, sandbox_gone, teardown_error, workdir_gone,
  cleanup_error, Input, HandlerInput, on_signal, on_handler, on_main, after_posting, start,
  run_inputs, MainInput,
}
use agentic_temporal_wf.Workflow.Run.{
  Main, preparing, provisioning, idle, iterating, posting, tearing_down, cleaning, completed,
  failed, continued, normal, raised,
}
use agentic_temporal_wf.Workflow.Command.{
  Command, prepare_workdir, provision_sandbox, teardown_sandbox, cleanup_workdir,
}
use agentic_temporal_wf.Workflow.Keys.{HexDigest}
use agentic_temporal_wf.Workflow.{Workflow, Init, create, from_pr, from_state}
use agentic_temporal_wf.Workflow.Request.{Handler, begin_request}
use agentic_temporal_wf.Lifecycle.Status.{post_status as post_status_outcome}
use agentic_temporal_wf.Lifecycle.Status.Laws.{post_status-forget_ids}
use agentic_temporal_wf.Models.{WorkflowState, PrRef, OperationRequest, SandboxHandle}
use agentic_temporal_wf.Base.{
  ℕ, Bool, true, false, Option, none, some, List, [], ◌∷◌, ◌++◌, ◌≡◌, refl, ap, ◌∙◌, ◌⊎◌, inl, inr,
  arith, All, ⊤, ◌==◌, ◌&&◌, ◌||◌, Outcome-cases, filter, nat_eq, text_eq, append-nil,
}
use agentic_temporal_wf.Base.Text.{Text}

abbrev is_resource : Command → Bool
is_resource (prepare_workdir _) = true
is_resource (provision_sandbox _) = true
is_resource (teardown_sandbox _) = true
is_resource (cleanup_workdir _) = true
is_resource _ = false

-- The commands that make or give back a workspace or a sandbox, in order.
abbrev pub resource_commands : List Command → List Command
resource_commands = filter is_resource

filter-append :
    (cs ds : List Command)
    → resource_commands (cs ++ ds) ≡ resource_commands cs ++ resource_commands ds
filter-append [] ds = refl
filter-append (c ∷ cs) ds = ground (arith, filter-append cs ds)

abbrev pub teardown_of : Option SandboxHandle → List Command
teardown_of none = []
teardown_of (some handle) = teardown_sandbox handle ∷ []

module _ (pr : PrRef) where
  abbrev pub made : List Command
  made = prepare_workdir pr ∷ provision_sandbox pr ∷ []

  abbrev pub torn : Option SandboxHandle → List Command
  torn sandbox = made ++ teardown_of sandbox

  abbrev pub returned : Option SandboxHandle → List Command
  returned sandbox = torn sandbox ++ cleanup_workdir pr ∷ []

-- The sandbox that is there is one that `d` accepts.
abbrev pub accepted : (SandboxHandle → Bool) → Option SandboxHandle → Bool
accepted d none = false
accepted d (some handle) = d handle

-- What `provision_sandbox` may return.
abbrev Accepted : (SandboxHandle → Bool) → MainInput → Type 0
Accepted d (sandbox_ready handle) = d handle ≡ true
Accepted d _ = ⊤

-- The stages that a run goes through.
module _ (d : SandboxHandle → Bool) (pr : PrRef) where
  abbrev Some : Option SandboxHandle → Type 0
  Some sandbox = accepted d sandbox ≡ true

  -- What has been made and given back, by where `run` stands.
  abbrev Stage : Main → Option SandboxHandle → List Command → Type 0
  Stage preparing sandbox rs = rs ≡ prepare_workdir pr ∷ []
  Stage provisioning sandbox rs = rs ≡ made pr
  Stage idle sandbox rs = (rs ≡ made pr) × Some sandbox
  Stage iterating sandbox rs = (rs ≡ made pr) × Some sandbox
  Stage (posting s p) sandbox rs =
      (rs ≡ made pr) × Some sandbox × (s.sandbox ≡ sandbox) × (s.pr ≡ pr)
  Stage (tearing_down e) sandbox rs = (rs ≡ torn pr sandbox) × Some sandbox
  Stage (cleaning e) sandbox rs = (rs ≡ returned pr sandbox) × Some sandbox
  Stage (completed t) sandbox rs = (rs ≡ returned pr sandbox) × Some sandbox
  Stage (continued s) sandbox rs = (rs ≡ made pr) × (s.sandbox ≡ sandbox) × Some sandbox
  Stage (failed e) sandbox rs =
      (rs ≡ prepare_workdir pr ∷ [])
      ⊎ ((rs ≡ made pr) ⊎ ((rs ≡ torn pr sandbox) ⊎ (rs ≡ returned pr sandbox)))

  record Owns (w : Workflow) (main : Main) (rs : List Command) : Type 0 where
    same_pr : w.state.pr ≡ pr
    stage : Stage main w.state.sandbox rs

  on_main-Owns :
      (i : MainInput) (main : Main) (w : Workflow) (rs : List Command)
      → Accepted d i
      → Owns w main rs
      → let e = on_main i main w in Owns e.workflow e.next (rs ++ resource_commands e.commands)
  unfolding on_main
  on_main-Owns workdir_ready preparing w rs ok_input c = ground arith
  on_main-Owns workdir_error preparing w rs ok_input c = ground (arith, append-nil rs)
  on_main-Owns (sandbox_ready handle) provisioning w rs ok_input c = ground (arith, append-nil rs)
  on_main-Owns sandbox_error provisioning w rs ok_input c = ground (arith, append-nil rs)
  on_main-Owns wake_run idle w rs ok_input c = ground (arith, append-nil rs)
  on_main-Owns idle_timer idle w rs ok_input c = ground (arith, append-nil rs)
  on_main-Owns (plan p) iterating w rs ok_input c = ground (arith, append-nil rs)
  on_main-Owns (iteration_error reason) iterating w rs ok_input c = ground (arith, append-nil rs)
  on_main-Owns (status_posted k r again) (posting s p) w rs ok_input c =
      elim (Outcome-cases (post_status_outcome k r s)) [
        | inl (t, ok) ↦
            let same = ap fixed (post_status-forget_ids k r s ok) in
            rw (ok, after_posting) (ground (arith, append-nil rs))
        | inr (e, bad) ↦ rw (bad, after_posting) (ground (arith, append-nil rs))
      ]
  on_main-Owns sandbox_gone (tearing_down ending) w rs ok_input c = ground arith
  on_main-Owns teardown_error (tearing_down ending) w rs ok_input c = ground (arith, append-nil rs)
  on_main-Owns workdir_gone (cleaning normal) w rs ok_input c = ground (arith, append-nil rs)
  on_main-Owns workdir_gone (cleaning (raised e)) w rs ok_input c = ground (arith, append-nil rs)
  on_main-Owns cleanup_error (cleaning ending) w rs ok_input c = ground (arith, append-nil rs)
  on_main-Owns _ main w rs ok_input c = rw append-nil c

  Owns-fixed :
      (w v : Workflow) (main : Main) (rs qs : List Command)
      → fixed v.state ≡ fixed w.state
      → qs ≡ []
      → Owns w main rs
      → Owns v main (rs ++ qs)
  Owns-fixed w v main rs qs same empty c =
      let p : v.state.pr ≡ w.state.pr = ap (λ (x : PrRef × ℕ × Option SandboxHandle). x.0) same in
      let b : v.state.sandbox ≡ w.state.sandbox =
        ap (λ (x : PrRef × ℕ × Option SandboxHandle). x.2) same in
      let q : rs ++ qs ≡ rs = ap (λ (x : List Command). rs ++ x) empty ∙ append-nil rs in
      record { same_pr = p ∙ c.same_pr; stage = rw (q, b) c.stage }

begin_request-no_resource :
    (h : HexDigest) (id : Text) (request : OperationRequest) (w : Workflow)
    → resource_commands (begin_request h id request w).commands ≡ []
unfolding begin_request
begin_request-no_resource h id request w = ground arith

on_handler-no_resource :
    (id : Text) (i : HandlerInput) (handler : Handler) (w : Workflow)
    → resource_commands (on_handler id i handler w).commands ≡ []
unfolding on_handler
on_handler-no_resource id i handler w = ground arith

module _ (h : HexDigest) (workflow_id : Text) (d : SandboxHandle → Bool) (pr : PrRef) where
  abbrev Q : Workflow → Main → List Command → Type 0
  Q w main cs = Owns d pr w main (resource_commands cs)

  Owns-append :
      (w v : Workflow) (main : Main) (cs ds : List Command)
      → fixed v.state ≡ fixed w.state
      → resource_commands ds ≡ []
      → Q w main cs
      → Q v main (cs ++ ds)
  Owns-append w v main cs ds same empty c =
      rw (filter-append cs ds)
        (Owns-fixed d pr w v main (resource_commands cs) (resource_commands ds) same empty c)

  Owns-Invariant : InvariantOn h workflow_id (Accepted d) Q
  Owns-Invariant = record {
    signal_keeps = λ sig w main cs c.
        rw append-nil at
          (Owns-append w (on_signal sig w) main cs [] (on_signal-fixed sig w) refl c);
    begin_keeps = λ request w main cs c.
        let e = begin_request h workflow_id request w in
        Owns-append w e.workflow main cs e.commands (begin_request-fixed h workflow_id request w)
          (begin_request-no_resource h workflow_id request w) c;
    handler_keeps = λ i handler w main cs c.
        let e = on_handler workflow_id i handler w in
        Owns-append w e.workflow main cs e.commands (on_handler-fixed workflow_id i handler w)
          (on_handler-no_resource workflow_id i handler w) c;
    main_keeps = λ i w main cs a c.
        let e = on_main i main w in
        rw (filter-append cs e.commands) (on_main-Owns d pr i main w (resource_commands cs) a c);
  }

abbrev pub pr_of : Init → PrRef
pr_of (from_pr pr) = pr
pr_of (from_state s) = s.pr

start-Owns :
    (d : SandboxHandle → Bool) (init : Init)
    → Owns d (pr_of init) (create init) preparing (prepare_workdir (pr_of init) ∷ [])
unfolding create
start-Owns d (from_pr pr) = ground arith
start-Owns d (from_state s) = ground arith

create-pr : (init : Init) → (create init).state.pr ≡ pr_of init
unfolding create
create-pr (from_pr pr) = refl
create-pr (from_state s) = refl

abbrev given_by : Input → SandboxHandle → Bool
given_by (main_input (sandbox_ready given)) handle =
    given.container_id == handle.container_id && given.workdir == handle.workdir
given_by _ handle = false

-- A handle is among the results of `provision_sandbox` that the inputs hold.
abbrev pub delivered : List Input → SandboxHandle → Bool
delivered [] handle = false
delivered (i ∷ is) handle = given_by i handle || delivered is handle

given_by-Accepted :
    (d : SandboxHandle → Bool) (i : Input)
    → ((handle : SandboxHandle) → given_by i handle ≡ true → d handle ≡ true)
    → AllowedInput (Accepted d) i
given_by-Accepted d (main_input (sandbox_ready given)) h = h given (ground arith)
given_by-Accepted d (main_input _) h = tt
given_by-Accepted d _ h = tt

delivered-Accepted :
    (d : SandboxHandle → Bool) (is : List Input)
    → ((handle : SandboxHandle) → delivered is handle ≡ true → d handle ≡ true)
    → All (AllowedInput (Accepted d)) is
delivered-Accepted d [] h = tt
delivered-Accepted d (i ∷ is) h = (
  given_by-Accepted d i λ handle e. h handle (ground (arith, e)),
  delivered-Accepted d is λ handle e. h handle (ground (arith, e)),
)

reached :
    (h : HexDigest) (workflow_id : Text) (init : Init) (inputs : List Input)
    → let s = run_inputs h workflow_id (start init) inputs in
      Owns (delivered inputs) (pr_of init) s.workflow s.main (resource_commands s.commands)
unfolding start
reached h workflow_id init inputs =
    run_allowed_keeps (Owns-Invariant h workflow_id (delivered inputs) (pr_of init)) inputs
      (start init) (delivered-Accepted (delivered inputs) inputs λ handle e. e)
      (rw (create-pr init) (start-Owns (delivered inputs) init))

-- In any order of inputs, a run that has completed has prepared the workspace, provisioned the
-- sandbox, torn down one that `provision_sandbox` has returned to it, which is the one of its state,
-- and cleaned up the workspace: each once and in this order, all for the pull request that it began
-- on.
pub completed-returned :
    (h : HexDigest) (workflow_id : Text) (init : Init) (inputs : List Input) {result : Text}
    → (run_inputs h workflow_id (start init) inputs).main ≡ completed result
    → let s = run_inputs h workflow_id (start init) inputs in
      (resource_commands s.commands ≡ returned (pr_of init) s.workflow.state.sandbox)
      × (accepted (delivered inputs) s.workflow.state.sandbox ≡ true)
completed-returned h workflow_id init inputs e =
    let c = reached h workflow_id init inputs in let stage = c.stage in rw e at stage

-- A run that continues as new has prepared and provisioned, and gives nothing back; the state that
-- it hands on names a sandbox that `provision_sandbox` has returned to the run.
pub continued-keeps :
    (h : HexDigest) (workflow_id : Text) (init : Init) (inputs : List Input) {t : WorkflowState}
    → (run_inputs h workflow_id (start init) inputs).main ≡ continued t
    → let s = run_inputs h workflow_id (start init) inputs in
      (resource_commands s.commands ≡ made (pr_of init))
      × (accepted (delivered inputs) t.sandbox ≡ true)
continued-keeps h workflow_id init inputs e =
    let c = reached h workflow_id init inputs in
    let stage = c.stage in let (rs, same, there) = rw e at stage in (rs, rw same there)
