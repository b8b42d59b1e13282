-- ===== src/Workflow/System/Induction.antt =====
-- Invariants of the system: what each kind of input keeps, every sequence of inputs keeps.
use agentic_temporal_wf.Workflow.System.{
  Signal, decision, event, close_run, Input, signal, update, resume, main_input, HandlerInput,
  System, on_signal, on_handler, on_main, step, react, is_over, run_inputs, MainInput, kept,
}
use agentic_temporal_wf.Workflow.Run.{Main}
use agentic_temporal_wf.Workflow.Command.{Command}
use agentic_temporal_wf.Workflow.Keys.{HexDigest}
use agentic_temporal_wf.Base.Json.{Json, string, array, object}
use agentic_temporal_wf.Workflow.{record_decision, Workflow}
use agentic_temporal_wf.Workflow.Request.{Handler, begin_request}
use agentic_temporal_wf.Models.{WorkflowState, PrRef, OperationRequest, SandboxHandle}
use agentic_temporal_wf.Base.{
  ℕ, Option, none, some, List, [], ◌∷◌, ◌++◌, ◌≡◌, refl, inl, inr, arith, Option-cases, Bool-cases,
  All, ⊤, nat_eq, text_eq,
}
use agentic_temporal_wf.Base.Text.{Text, codes}
use agentic_temporal_wf.Base.Dict.{Dict, lookup}

pub run_inputs-append :
    (h : HexDigest) (workflow_id : Text) (is js : List Input) (s : System)
    → run_inputs h workflow_id s (is ++ js)
      ≡ run_inputs h workflow_id (run_inputs h workflow_id s is) js
unfolding run_inputs
run_inputs-append h workflow_id [] js s = refl
run_inputs-append h workflow_id (i ∷ is) js s =
    run_inputs-append h workflow_id is js (step h workflow_id s i)

-- A property of the object, of the place of `run` and of the commands so far, which the handlers of
-- signals, the update handlers and `run` each keep; `run` for the results that are allowed.
pub record InvariantOn (h : HexDigest) (workflow_id : Text) (Allowed : MainInput → Type 0)
    (Q : Workflow → Main → List Command → Type 0) : Type 0 where
  pub signal_keeps :
      (sig : Signal) (w : Workflow) (main : Main) (cs : List Command)
      → Q w main cs
      → Q (on_signal sig w) main cs
  pub begin_keeps :
      (request : OperationRequest) (w : Workflow) (main : Main) (cs : List Command)
      → Q w main cs
      → let e = begin_request h workflow_id request w in Q e.workflow main (cs ++ e.commands)
  pub handler_keeps :
      (i : HandlerInput) (handler : Handler) (w : Workflow) (main : Main) (cs : List Command)
      → Q w main cs
      → let e = on_handler workflow_id i handler w in Q e.workflow main (cs ++ e.commands)
  pub main_keeps :
      (i : MainInput) (w : Workflow) (main : Main) (cs : List Command)
      → Allowed i
      → Q w main cs
      → let e = on_main i main w in Q e.workflow e.next (cs ++ e.commands)

abbrev pub AllowedInput : (MainInput → Type 0) → Input → Type 0
AllowedInput Allowed (main_input i) = Allowed i
AllowedInput Allowed _ = ⊤

module _ {h : HexDigest} {workflow_id : Text} {Allowed : MainInput → Type 0}
    {Q : Workflow → Main → List Command → Type 0}
    (keeps : InvariantOn h workflow_id Allowed Q) where
  abbrev Of : System → Type 0
  Of s = Q s.workflow s.main s.commands

  react_keeps :
      (i : Input) (s : System) → AllowedInput Allowed i → Of s → Of (react h workflow_id i s)
  unfolding react
  react_keeps (signal sig) s a q = keeps.signal_keeps sig s.workflow s.main s.commands q
  react_keeps (update n request) s a q = elim (Option-cases (lookup n s.handlers)) [
    | inr (handler, known) ↦ rw (known, react) q
    | inl new ↦ rw (new, react) (keeps.begin_keeps request s.workflow s.main s.commands q)
  ]
  react_keeps (resume n i) s a q = elim (Option-cases (lookup n s.handlers)) [
    | inl missing ↦ rw (missing, react) q
    | inr (handler, known) ↦
        rw (known, react) (keeps.handler_keeps i handler s.workflow s.main s.commands q)
  ]
  react_keeps (main_input i) s a q = keeps.main_keeps i s.workflow s.main s.commands a q

  step_keeps :
      (s : System) (i : Input) → AllowedInput Allowed i → Of s → Of (step h workflow_id s i)
  unfolding step
  step_keeps s i a q = elim (Bool-cases (is_over s.main)) [
    | inl over ↦ rw over q
    | inr going ↦ rw going (react_keeps i s a q)
  ]

  pub run_allowed_keeps :
      (is : List Input) (s : System)
      → All (AllowedInput Allowed) is
      → Of s
      → Of (run_inputs h workflow_id s is)
  unfolding run_inputs
  run_allowed_keeps [] s a q = q
  run_allowed_keeps (i ∷ is) s (a, more) q =
      run_allowed_keeps is (step h workflow_id s i) more (step_keeps s i a q)

-- All results are allowed.
abbrev pub Invariant : (h : HexDigest) → Text → (Workflow → Main → List Command → Type 0) → Type 0
Invariant h workflow_id Q = InvariantOn h workflow_id (λ _. ⊤) Q

all_allowed : (is : List Input) → All (AllowedInput (λ _. ⊤)) is
all_allowed [] = tt
all_allowed (signal _ ∷ is) = (tt, all_allowed is)
all_allowed (update _ _ ∷ is) = (tt, all_allowed is)
all_allowed (resume _ _ ∷ is) = (tt, all_allowed is)
all_allowed (main_input _ ∷ is) = (tt, all_allowed is)

pub run_inputs_keeps :
    {h : HexDigest} {workflow_id : Text} {Q : Workflow → Main → List Command → Type 0}
    → Invariant h workflow_id Q
    → (is : List Input) (s : System) → Q s.workflow s.main s.commands
    → let s' = run_inputs h workflow_id s is in Q s'.workflow s'.main s'.commands
run_inputs_keeps keeps is s q = run_allowed_keeps keeps is s (all_allowed is) q

-- What the handlers of signals and of updates leave alone.
abbrev pub fixed : WorkflowState → PrRef × ℕ × Option SandboxHandle
fixed s = (s.pr, s.iterations, s.sandbox)

-- A decision signal changes the approvals only.
pub record_decision-state :
    (payload : Dict Text Json) (w : Workflow) (id : Option Json)
    → (kept w (record_decision payload w id)).state ≡ w.state
unfolding record_decision
record_decision-state payload w none = refl
record_decision-state payload w (some (string k)) = ground arith
record_decision-state payload w (some (array _)) = refl
record_decision-state payload w (some (object _)) = refl
record_decision-state payload w (some _) = refl

pub on_signal-fixed : (sig : Signal) (w : Workflow) → fixed (on_signal sig w).state ≡ fixed w.state
unfolding on_signal
on_signal-fixed (event e) w = ground arith
on_signal-fixed close_run w = refl
on_signal-fixed (decision payload) w =
    rw (record_decision-state payload w (lookup (codes "approval_id") payload))

pub begin_request-fixed :
    (h : HexDigest) (id : Text) (request : OperationRequest) (w : Workflow)
    → fixed (begin_request h id request w).workflow.state ≡ fixed w.state
unfolding begin_request
begin_request-fixed h id request w = ground arith

pub on_handler-fixed :
    (id : Text) (i : HandlerInput) (handler : Handler) (w : Workflow)
    → fixed (on_handler id i handler w).workflow.state ≡ fixed w.state
unfolding on_handler
on_handler-fixed id i handler w = ground arith
