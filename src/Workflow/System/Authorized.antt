-- ===== src/Workflow/System/Authorized.antt =====
-- src/workflows/pr_autofix.py: the decision signals and the pushes that are scheduled.
use agentic_temporal_wf.Base.{Bool, true, false, ◌&&◌, ◌||◌, Option, none, some}
use agentic_temporal_wf.Base.{List, [], ◌∷◌, ◌++◌, ◌≡◌, inl, inr, arith}
use agentic_temporal_wf.Base.{◌==◌, contains, text_eq, nat_eq, get_or, Option-cases, Bool-cases}
use agentic_temporal_wf.Base.{All, All-append, ⊤}
use agentic_temporal_wf.Base.Text.{Text, codes}
use agentic_temporal_wf.Base.Dict.{Dict, lookup, insert, erase}
use agentic_temporal_wf.Base.Json.{Json, boolean, string, array, object, truthy}
use agentic_temporal_wf.Models.{ApprovalState, OperationRequest, pending_approval}
use agentic_temporal_wf.Workflow.{
  Workflow, Init, from_pr, from_state, create, decide, record_decision,
}
use agentic_temporal_wf.Workflow.Command.{Command, Effect, push_changes}
use agentic_temporal_wf.Workflow.Keys.{HexDigest, push_operation_key}
use agentic_temporal_wf.Workflow.Request.{
  Handler, awaiting_prior, notifying, awaiting_decision, pushing, begin_request, check_decision,
}
use agentic_temporal_wf.Workflow.System.{
  Signal, decision, event, close_run, wake, timeout, notified, notify_error, push_error,
  push_result, workdir_ready, workdir_error, sandbox_error, sandbox_ready, wake_run, idle_timer,
  plan, iteration_error, status_posted, sandbox_gone, teardown_error, workdir_gone, cleanup_error,
  Input, signal, update, resume, main_input, react, is_over, HandlerInput, System, kept, on_signal,
  on_handler, on_main, start, step, run_inputs, MainInput,
}
use agentic_temporal_wf.Workflow.Run.{
  Main, preparing, provisioning, idle, iterating, posting, tearing_down, cleaning,
}

abbrev names_key : Text → Option Json → Bool
names_key key (some (string k)) = k == key
names_key key _ = false

-- The input is a decision on the approval `key` that allows it.
abbrev pub approves : Text → Input → Bool
approves key (signal (decision payload)) =
    names_key key (lookup (codes "approval_id") payload)
    && truthy (get_or (lookup (codes "allowed") payload) (boolean false))
approves key _ = false

abbrev pub any_approves : Text → List Input → Bool
any_approves key [] = false
any_approves key (i ∷ is) = approves key i || any_approves key is

-- The keys with which `push_changes` was scheduled.
abbrev pub pushed_keys : List Command → List Text
pushed_keys [] = []
pushed_keys (push_changes _ _ _ key ∷ cs) = key ∷ pushed_keys cs
pushed_keys (_ ∷ cs) = pushed_keys cs

module _ (p : Text → Bool) where
  -- An approval that was given is one that `p` admits.
  abbrev Given : Text → ApprovalState → Type 0
  Given k a = a.pending ≡ false → a.allowed ≡ true → p k ≡ true

  abbrev AllGiven : Dict Text ApprovalState → Type 0
  AllGiven [] = ⊤
  AllGiven ((k, a) ∷ d) = Given k a × AllGiven d

  abbrev MayRun : Command → Type 0
  MayRun (push_changes _ _ _ key) = p key ≡ true
  MayRun _ = ⊤

  MayRun-append : (cs ds : List Command) → All MayRun cs → All MayRun ds → All MayRun (cs ++ ds)
  MayRun-append cs ds hc hd = All-append MayRun cs ds hc hd

  pushed_key-admitted :
      (cs : List Command) (key : Text)
      → All MayRun cs
      → contains (pushed_keys cs) key ≡ true
      → p key ≡ true
  pushed_key-admitted [] key h e = cc
  pushed_key-admitted (push_changes _ _ _ _ ∷ cs) key h e =
      ground (arith, pushed_key-admitted cs key h.1)
  pushed_key-admitted (_ ∷ cs) key h e = pushed_key-admitted cs key h.1 e

  AllGiven-insert :
      (k : Text) (a : ApprovalState) (d : Dict Text ApprovalState)
      → Given k a
      → AllGiven d
      → AllGiven (insert k a d)
  unfolding insert
  AllGiven-insert k a [] g h = (g, tt)
  AllGiven-insert k a ((j, b) ∷ d) g h = ground (arith, AllGiven-insert k a d g h.1)

  AllGiven-erase : (k : Text) (d : Dict Text ApprovalState) → AllGiven d → AllGiven (erase k d)
  unfolding erase
  AllGiven-erase k [] h = tt
  AllGiven-erase k ((j, b) ∷ d) h = ground (arith, AllGiven-erase k d h.1)

  Given-lookup :
      (k : Text) (a : ApprovalState) (d : Dict Text ApprovalState)
      → AllGiven d
      → lookup k d ≡ some a
      → Given k a
  unfolding lookup
  Given-lookup k a [] h e = cc
  Given-lookup k a ((j, b) ∷ d) h e = ground (arith, Given-lookup k a d h.1)

  abbrev IsSound : {N : Type 0} → Effect N → Type 0
  IsSound e = AllGiven e.workflow.approvals × All MayRun e.commands

  begin_request-IsSound :
      (h : HexDigest) (id : Text) (request : OperationRequest) (w : Workflow)
      → AllGiven w.approvals
      → IsSound (begin_request h id request w)
  unfolding begin_request
  begin_request-IsSound h id request w g =
      let key = push_operation_key h id w.state.iterations in
      ground (arith, AllGiven-insert key (pending_approval key) w.approvals)

  check_decision-IsSound :
      (id key : Text) (request : OperationRequest) (w : Workflow)
      → AllGiven w.approvals
      → IsSound (check_decision id key request w)
  unfolding check_decision
  check_decision-IsSound id key request w g = elim (Option-cases (lookup key w.approvals)) [
    | inl missing ↦ ground arith
    | inr (a, found) ↦
        ground (arith, AllGiven-erase key w.approvals g, Given-lookup key a w.approvals g found)
  ]

  on_handler-IsSound :
      (id : Text) (i : HandlerInput) (handler : Handler) (w : Workflow)
      → AllGiven w.approvals
      → IsSound (on_handler id i handler w)
  unfolding on_handler
  on_handler-IsSound id wake (awaiting_prior key) w g = (g, tt)
  on_handler-IsSound id timeout (awaiting_prior key) w g = (g, tt)
  on_handler-IsSound id notified (notifying key request) w g =
      check_decision-IsSound id key request w g
  on_handler-IsSound id notify_error (notifying key request) w g = (g, tt)
  on_handler-IsSound id wake (awaiting_decision key request) w g =
      check_decision-IsSound id key request w g
  on_handler-IsSound id timeout (awaiting_decision key request) w g =
      (AllGiven-erase key w.approvals g, tt)
  on_handler-IsSound id (push_result commit) (pushing key request) w g = (g, tt)
  on_handler-IsSound id push_error (pushing key request) w g = (g, tt)
  on_handler-IsSound id _ handler w g = (g, tt)

  on_main-IsSound :
      (i : MainInput) (main : Main) (w : Workflow)
      → AllGiven w.approvals
      → IsSound (on_main i main w)
  unfolding on_main
  on_main-IsSound workdir_ready preparing w g = (g, (tt, tt))
  on_main-IsSound workdir_error preparing w g = (g, tt)
  on_main-IsSound (sandbox_ready handle) provisioning w g = ground arith
  on_main-IsSound sandbox_error provisioning w g = (g, tt)
  on_main-IsSound wake_run idle w g = ground arith
  on_main-IsSound idle_timer idle w g = ground arith
  on_main-IsSound (plan p) iterating w g = (g, (tt, tt))
  on_main-IsSound (iteration_error reason) iterating w g = (g, (tt, tt))
  on_main-IsSound (status_posted c k again) (posting s p) w g = ground arith
  on_main-IsSound sandbox_gone (tearing_down ending) w g = (g, (tt, tt))
  on_main-IsSound teardown_error (tearing_down ending) w g = (g, tt)
  on_main-IsSound workdir_gone (cleaning ending) w g = (g, tt)
  on_main-IsSound cleanup_error (cleaning ending) w g = (g, tt)
  on_main-IsSound _ main w g = (g, tt)

  record_decision-AllGiven :
      (payload : Dict Text Json) (w : Workflow) (id : Option Json)
      → ((k : Text)
          → (names_key k id && truthy (get_or (lookup (codes "allowed") payload) (boolean false)))
            ≡ true
          → p k ≡ true)
      → AllGiven w.approvals
      → AllGiven (kept w (record_decision payload w id)).approvals
  unfolding record_decision
  record_decision-AllGiven payload w none ok g = g
  record_decision-AllGiven payload w (some (string k)) ok g =
      elim (Option-cases (lookup k w.approvals)) [
        | inl missing ↦ ground arith
        | inr (a, found) ↦ ground (arith, AllGiven-insert k (decide payload a) w.approvals, ok k)
      ]
  record_decision-AllGiven payload w (some (array _)) ok g = g
  record_decision-AllGiven payload w (some (object _)) ok g = g
  record_decision-AllGiven payload w (some _) ok g = g

  on_signal-AllGiven :
      (sig : Signal) (w : Workflow)
      → ((k : Text) → approves k (signal sig) ≡ true → p k ≡ true)
      → AllGiven w.approvals
      → AllGiven (on_signal sig w).approvals
  unfolding on_signal
  on_signal-AllGiven (event e) w ok g = ground arith
  on_signal-AllGiven close_run w ok g = g
  on_signal-AllGiven (decision payload) w ok g =
      record_decision-AllGiven payload w (lookup (codes "approval_id") payload) ok g

  AllGiven-create : (init : Init) → AllGiven (create init).approvals
  unfolding create
  AllGiven-create (from_pr pr) = tt
  AllGiven-create (from_state s) = tt

  record Holds (s : System) : Type 0 where
    given : AllGiven s.workflow.approvals
    may_run : All MayRun s.commands

  module _ (h : HexDigest) (workflow_id : Text) where
    react-Holds :
        (i : Input) (s : System)
        → ((k : Text) → approves k i ≡ true → p k ≡ true)
        → Holds s
        → Holds (react h workflow_id i s)
    unfolding react
    react-Holds (signal sig) s ok g = record {
      given = on_signal-AllGiven sig s.workflow ok g.given;
      may_run = g.may_run;
    }
    react-Holds (update n request) s ok g = elim (Option-cases (lookup n s.handlers)) [
      | inr (handler, known) ↦ rw (known, react) g
      | inl new ↦
          let e = begin_request-IsSound h workflow_id request s.workflow g.given in
          let c =
            MayRun-append s.commands (begin_request h workflow_id request s.workflow).commands
              g.may_run e.1 in
          ground arith
    ]
    react-Holds (resume n i) s ok g = elim (Option-cases (lookup n s.handlers)) [
      | inl missing ↦ rw (missing, react) g
      | inr (handler, known) ↦
          let e = on_handler-IsSound workflow_id i handler s.workflow g.given in
          let c =
            MayRun-append s.commands (on_handler workflow_id i handler s.workflow).commands
              g.may_run e.1 in
          ground arith
    ]
    react-Holds (main_input i) s ok g =
        let e = on_main-IsSound i s.main s.workflow g.given in
        record { given = e.0; may_run = MayRun-append s.commands _ g.may_run e.1 }

    step-Holds :
        (s : System) (i : Input)
        → ((k : Text) → approves k i ≡ true → p k ≡ true)
        → Holds s
        → Holds (step h workflow_id s i)
    unfolding step
    step-Holds s i ok g = elim (Bool-cases (is_over s.main)) [
      | inl over ↦ rw over g
      | inr going ↦ rw going (react-Holds i s ok g)
    ]

    run_inputs-Holds :
        (s : System) (is : List Input)
        → ((k : Text) → any_approves k is ≡ true → p k ≡ true)
        → Holds s
        → Holds (run_inputs h workflow_id s is)
    unfolding run_inputs
    run_inputs-Holds s [] ok g = g
    run_inputs-Holds s (i ∷ is) ok g =
        run_inputs-Holds (step h workflow_id s i) is (λ k e. ok k (ground arith))
          (step-Holds s i (λ k e. ok k (ground arith)) g)

-- Whatever the server delivers, and in whatever order, from the start of a run: a key with which
-- `push_changes` was scheduled is one for which a decision signal carried a true `allowed`.
pub pushed_key-approved :
    (h : HexDigest) (workflow_id : Text) (init : Init) (inputs : List Input) (key : Text)
    → contains (pushed_keys (run_inputs h workflow_id (start init) inputs).commands) key ≡ true
    → any_approves key inputs ≡ true
unfolding start
pushed_key-approved h workflow_id init inputs key e =
    let p = λ (k : Text). any_approves k inputs in
    let first : Holds p (start init) = record {
      given = AllGiven-create p init;
      may_run = (tt, tt);
    } in
    pushed_key-admitted p _ key
      (run_inputs-Holds p h workflow_id (start init) inputs (λ k a. a) first).may_run e
