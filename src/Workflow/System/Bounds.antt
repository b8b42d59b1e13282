-- ===== src/Workflow/System/Bounds.antt =====
-- src/workflows/pr_autofix.py: the counter of iterations and the runs of the agent.
use agentic_temporal_wf.Workflow.System.{
  workdir_ready, workdir_error, sandbox_error, sandbox_ready, wake_run, idle_timer, plan,
  iteration_error, status_posted, sandbox_gone, teardown_error, workdir_gone, cleanup_error, Input,
  HandlerInput, on_signal, on_handler, on_main, after_posting, start, run_inputs, MainInput,
}
use agentic_temporal_wf.Workflow.System.Induction.{
  Invariant, run_inputs_keeps, fixed, on_signal-fixed, begin_request-fixed, on_handler-fixed,
}
use agentic_temporal_wf.Workflow.Run.{
  Main, preparing, provisioning, idle, iterating, posting, tearing_down, cleaning, continued,
  normal, raised,
}
use agentic_temporal_wf.Workflow.Command.{Command, run_agent_iteration}
use agentic_temporal_wf.Workflow.Keys.{HexDigest}
use agentic_temporal_wf.Workflow.{Workflow, Init, create, from_pr, from_state, max_iterations}
use agentic_temporal_wf.Workflow.Request.{Handler, begin_request}
use agentic_temporal_wf.Lifecycle.Status.{post_status as post_status_outcome}
use agentic_temporal_wf.Lifecycle.Status.Laws.{post_status-forget_ids}
use agentic_temporal_wf.Models.{WorkflowState, PrRef, OperationRequest, SandboxHandle}
use agentic_temporal_wf.Base.{
  ℕ, ◌+◌, ◌≤◌, ◌<◌, Option, List, [], ◌∷◌, ◌++◌, ◌≡◌, ap, ◌⊎◌, inl, inr, arith, Outcome-cases, ⊤,
  nat_eq, text_eq,
}
use agentic_temporal_wf.Base.Text.{Text}

abbrev pub is_iteration : Command → ℕ
is_iteration (run_agent_iteration _ _) = 1
is_iteration _ = 0

-- How often the agent was started.
abbrev pub agent_runs : List Command → ℕ
agent_runs [] = 0
agent_runs (c ∷ cs) = is_iteration c + agent_runs cs

agent_runs-append : (cs ds : List Command) → agent_runs (cs ++ ds) ≡ agent_runs cs + agent_runs ds
agent_runs-append [] ds = omega arith
agent_runs-append (c ∷ cs) ds = omega (arith, agent_runs-append cs ds)

-- Where `run` stands, as far as the counter goes.
abbrev Place : Main → ℕ → Type 0
Place idle n = n < max_iterations
Place (posting s p) n = s.iterations ≡ n
Place (continued s) n = s.iterations ≡ n
Place _ n = ⊤

module _ (first : ℕ) where
  -- `first` is the counter at the start of the run.
  record Counts (w : Workflow) (main : Main) (runs : ℕ) : Type 0 where
    counted : runs + first ≡ w.state.iterations
    bounded : (w.state.iterations ≤ max_iterations) ⊎ (w.state.iterations ≡ first)
    place : Place main w.state.iterations

  on_main-Counts :
      (i : MainInput) (main : Main) (w : Workflow) (n : ℕ)
      → Counts w main n
      → let e = on_main i main w in Counts e.workflow e.next (n + agent_runs e.commands)
  unfolding on_main
  on_main-Counts workdir_ready preparing w n c = ground arith
  on_main-Counts workdir_error preparing w n c = ground arith
  on_main-Counts (sandbox_ready handle) provisioning w n c = ground arith
  on_main-Counts sandbox_error provisioning w n c = ground arith
  on_main-Counts wake_run idle w n c = ground arith
  on_main-Counts idle_timer idle w n c = ground arith
  on_main-Counts (plan p) iterating w n c = ground arith
  on_main-Counts (iteration_error reason) iterating w n c = ground arith
  on_main-Counts (status_posted k r again) (posting s p) w n c =
      elim (Outcome-cases (post_status_outcome k r s)) [
        | inl (t, ok) ↦
            let same = ap (λ (x : WorkflowState). x.iterations) (post_status-forget_ids k r s ok) in
            rw (ok, after_posting) (ground arith)
        | inr (e, bad) ↦ rw (bad, after_posting) (ground arith)
      ]
  on_main-Counts sandbox_gone (tearing_down ending) w n c = ground arith
  on_main-Counts teardown_error (tearing_down ending) w n c = ground arith
  on_main-Counts workdir_gone (cleaning normal) w n c = ground arith
  on_main-Counts workdir_gone (cleaning (raised e)) w n c = ground arith
  on_main-Counts cleanup_error (cleaning ending) w n c = ground arith
  on_main-Counts _ main w n c = ground arith

begin_request-no_runs :
    (h : HexDigest) (id : Text) (request : OperationRequest) (w : Workflow)
    → agent_runs (begin_request h id request w).commands ≡ 0
unfolding begin_request
begin_request-no_runs h id request w = ground arith

on_handler-no_runs :
    (id : Text) (i : HandlerInput) (handler : Handler) (w : Workflow)
    → agent_runs (on_handler id i handler w).commands ≡ 0
unfolding on_handler
on_handler-no_runs id i handler w = ground arith

module _ (h : HexDigest) (workflow_id : Text) (first : ℕ) where
  abbrev Q : Workflow → Main → List Command → Type 0
  Q w main cs = Counts first w main (agent_runs cs)

  Counts-append :
      (w : Workflow) (main : Main) (cs ds : List Command)
      → Counts first w main (agent_runs cs + agent_runs ds)
      → Q w main (cs ++ ds)
  Counts-append w main cs ds c = rw (agent_runs-append cs ds) c

  -- The counter and the place of `run` are all that the invariant reads of the object.
  Counts-fixed :
      (w v : Workflow) (main : Main) (n m : ℕ)
      → fixed v.state ≡ fixed w.state
      → m ≡ 0
      → Counts first w main n
      → Counts first v main (n + m)
  Counts-fixed w v main n m same none_run c =
      let e : v.state.iterations ≡ w.state.iterations =
        ap (λ (x : PrRef × ℕ × Option SandboxHandle). x.1) same in
      record { counted = omega arith; bounded = rw e c.bounded; place = rw e c.place }

  Counts-Invariant : Invariant h workflow_id Q
  Counts-Invariant = record {
    signal_keeps = λ sig w main cs c.
        let same = on_signal-fixed sig w in
        let e : (on_signal sig w).state.iterations ≡ w.state.iterations =
          ap (λ (x : PrRef × ℕ × Option SandboxHandle). x.1) same in
        record { counted = omega arith; bounded = rw e c.bounded; place = rw e c.place };
    begin_keeps = λ request w main cs c.
        let e = begin_request h workflow_id request w in
        Counts-append e.workflow main cs e.commands (
          Counts-fixed w e.workflow main (agent_runs cs) (agent_runs e.commands)
            (begin_request-fixed h workflow_id request w)
            (begin_request-no_runs h workflow_id request w) c);
    handler_keeps = λ i handler w main cs c.
        let e = on_handler workflow_id i handler w in
        Counts-append e.workflow main cs e.commands (
          Counts-fixed w e.workflow main (agent_runs cs) (agent_runs e.commands)
            (on_handler-fixed workflow_id i handler w) (on_handler-no_runs workflow_id i handler w)
            c);
    main_keeps = λ i w main cs _ c.
        let e = on_main i main w in
        Counts-append e.workflow e.next cs e.commands
          (on_main-Counts first i main w (agent_runs cs) c);
  }

-- The counter at the start of a run: 0 on a pull request, and what a run that continues as new
-- hands on.
abbrev pub first_iteration : Init → ℕ
first_iteration (from_pr _) = 0
first_iteration (from_state s) = s.iterations

start-Counts : (init : Init) → Counts (first_iteration init) (create init) preparing 0
unfolding create
start-Counts (from_pr pr) = ground arith
start-Counts (from_state s) = ground arith

-- Where a run stands, as far as the counter goes.
run-Counts :
    (h : HexDigest) (workflow_id : Text) (init : Init) (inputs : List Input)
    → let s = run_inputs h workflow_id (start init) inputs in
      Counts (first_iteration init) s.workflow s.main (agent_runs s.commands)
unfolding start
run-Counts h workflow_id init inputs =
    run_inputs_keeps (Counts-Invariant h workflow_id (first_iteration init)) inputs (start init)
      (start-Counts init)

-- What a run that continues as new hands on is counted; any other run has no successor.
abbrev after_run : Main → (WorkflowState → ℕ) → ℕ
after_run (continued t) count = count t
after_run _ count = 0

-- The agent's activities of a run, and of the runs that continue it as new, each on its inputs.
abbrev pub agent_runs_of : HexDigest → Text → Init → List (List Input) → ℕ
agent_runs_of h workflow_id init [] = 0
agent_runs_of h workflow_id init (inputs ∷ more) =
    let s = run_inputs h workflow_id (start init) inputs in
    agent_runs s.commands + after_run s.main λ t. agent_runs_of h workflow_id (from_state t) more

after_bounded :
    (main : Main) (n : ℕ) (count : WorkflowState → ℕ)
    → Place main n
    → n ≤ 5
    → ((t : WorkflowState) → t.iterations ≤ 5 → count t + t.iterations ≤ 5)
    → after_run main count + n ≤ 5
after_bounded (continued t) n count place low rest =
    let r = rest t (omega (arith, place, low)) in omega (arith, place, low, r)
after_bounded _ n count place low rest = omega (arith, low)

agent_runs_of_bounded :
    (h : HexDigest) (workflow_id : Text) (init : Init) (runs : List (List Input))
    → first_iteration init ≤ 5
    → agent_runs_of h workflow_id init runs + first_iteration init ≤ 5
agent_runs_of_bounded h workflow_id init [] low = omega (arith, low)
agent_runs_of_bounded h workflow_id init (inputs ∷ more) low =
    let s = run_inputs h workflow_id (start init) inputs in
    let c = run-Counts h workflow_id init inputs in
    let below : s.workflow.state.iterations ≤ 5 = elim c.bounded [
      | inl b ↦ b
      | inr e ↦ omega (arith, e, low)
    ] in
    let later =
      after_bounded s.main s.workflow.state.iterations
        (λ t. agent_runs_of h workflow_id (from_state t) more) c.place below
        λ t ok. agent_runs_of_bounded h workflow_id (from_state t) more ok in
    omega (arith, c.counted, later)

-- A run on a pull request and all the runs that continue it as new, each in any order of inputs:
-- together they schedule the activity of the agent five times at most.
pub agent_runs_bounded :
    (h : HexDigest) (workflow_id : Text) (pr : PrRef) (runs : List (List Input))
    → agent_runs_of h workflow_id (from_pr pr) runs ≤ 5
agent_runs_bounded h workflow_id pr runs =
    let b = agent_runs_of_bounded h workflow_id (from_pr pr) runs (omega arith) in omega (arith, b)
