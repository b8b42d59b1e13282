-- ===== src/Lifecycle/Push/Laws.antt =====
-- src/activities/lifecycle.py: the commands and the result of `push_changes`.
use agentic_temporal_wf.Base.{
  ℕ, arith, Bool, true, false, Option, none, some, List, [], ◌∷◌, ◌++◌, ◌≡◌, refl, ap, ◌⊎◌, inl,
  inr, ◌==◌, nat_eq, Bool-cases,
}
use agentic_temporal_wf.Base.{Outcome, returns, raises}
use agentic_temporal_wf.Base.Text.{Text, codes, strip, nonempty}
use agentic_temporal_wf.Models.{PrRef, CommitResult}
use agentic_temporal_wf.Lifecycle.Git.{
  Arguments, Completed, Shell, Script, Ran, after_commands, pure, ◌>>=◌, run_git, run_checked,
  run_command,
}
use agentic_temporal_wf.Lifecycle.Push.{
  not_pushed, fetch_args, log_args, add_args, diff_args, commit_args, rev_parse_args, rev_list_args,
  push_args, origin_of, network, is_behind, push_head, publish, publish_staged, commit_once,
  look_up, push_changes_at,
}

-- The command that fetches the branch of the pull request, and the one that pushes to it.
abbrev pub the_fetch : (Text → Text) → PrRef → Option Text → Arguments
the_fetch encode pr token = network encode token (fetch_args (origin_of pr token) pr)

abbrev pub the_push : (Text → Text) → PrRef → Option Text → Arguments
the_push encode pr token = network encode token (push_args (origin_of pr token) pr)

-- The commands from the commit on, and all of them, in order.
abbrev pub publish_plan : (Text → Text) → PrRef → Text → Text → Option Text → List Arguments
publish_plan encode pr message operation_key token =
    commit_args message operation_key
    ∷ rev_parse_args
    ∷ rev_list_args
    ∷ the_push encode pr token
    ∷ []

abbrev pub push_plan : (Text → Text) → PrRef → Text → Text → Option Text → List Arguments
push_plan encode pr message operation_key token =
    the_fetch encode pr token
    ∷ log_args operation_key
    ∷ add_args
    ∷ diff_args
    ∷ publish_plan encode pr message operation_key token

-- What the search for the key prints, after the fetch.
abbrev pub searched :
    {W : Type 0} → Shell W → (Text → Text) → PrRef → Text → Option Text → W → Completed
searched shell encode pr operation_key token w =
    (shell (log_args operation_key) (shell (the_fetch encode pr token) w).1).0

-- The result reports a push.
abbrev pub says_pushed : Outcome CommitResult → Bool
says_pushed (returns c) = c.pushed
says_pushed (raises _) = false

-- The code of the last command, when they run one after the other; `code` if there are none.
abbrev pub last_code : {W : Type 0} → Shell W → ℕ → List Arguments → W → ℕ
last_code shell code [] w = code
last_code shell code (a ∷ args) w =
    let (completed, w') = shell a w in last_code shell completed.returncode args w'

-- The commands that ran are a beginning of the plan; all of it and the last with success, if a push
-- is reported.
record Follows {W : Type 0} (shell : Shell W) (w : W) (plan : List Arguments)
    (ran : Ran W CommitResult) : Type 0 where
  rest : List Arguments
  begins : ran.commands ++ rest ≡ plan
  honest :
      (says_pushed ran.result ≡ false)
      ⊎ ((ran.commands ≡ plan) × ((code : ℕ) → last_code shell code plan w ≡ 0))

module _ {W : Type 0} (shell : Shell W) where
  after_commands-Follows :
      {A : Type 0} (a : Arguments) (w : W) (m : Outcome A) (f : A → Script W CommitResult)
      (plan : List Arguments)
      → ((c : A) → Follows shell (shell a w).1 plan (f c (shell a w).1))
      → Follows shell w (a ∷ plan) (after_commands (a ∷ []) (shell a w).1 m f)
  after_commands-Follows a w (returns c) f plan h =
      let g = h c in
      record {
        rest = g.rest;
        begins = ap (λ (as' : List Arguments). a ∷ as') g.begins;
        honest = elim g.honest [
          | inl no_push ↦ inl no_push
          | inr (all_ran, well) ↦ inr (
            ap (λ (as' : List Arguments). a ∷ as') all_ran,
            λ code. well (shell a w).0.returncode,
          )
        ];
      }
  after_commands-Follows a w (raises e) f plan h = record {
    rest = plan;
    begins = refl;
    honest = inl refl;
  }

  -- A script of one command, and what goes on from it.
  bind-Follows :
      {A : Type 0} (m : Script W A) (f : A → Script W CommitResult) (w : W) (a : Arguments)
      (plan : List Arguments)
      → (m w).commands ≡ a ∷ []
      → (m w).world ≡ (shell a w).1
      → ((c : A) → Follows shell (shell a w).1 plan (f c (shell a w).1))
      → Follows shell w (a ∷ plan) ((m >>= f) w)
  bind-Follows m f w a plan e e' h = rw (e, e') (after_commands-Follows a w (m w).result f plan h)

  after_pure-Follows :
      {A : Type 0} (w : W) (m : Outcome A) (f : A → Script W CommitResult) (plan : List Arguments)
      → ((c : A) → Follows shell w plan (f c w))
      → Follows shell w plan ((pure m >>= f) w)
  after_pure-Follows w (returns c) f plan h =
      let g = h c in record { rest = g.rest; begins = g.begins; honest = g.honest }
  after_pure-Follows w (raises e) f plan h = record {
    rest = plan;
    begins = refl;
    honest = inl refl;
  }

  -- To stop without a push is to follow any plan.
  stop-Follows :
      (w : W) (plan : List Arguments) (c : CommitResult)
      → c.pushed ≡ false
      → Follows shell w plan (pure (returns c) w)
  stop-Follows w plan c h = record { rest = plan; begins = refl; honest = inl h }

module _ {W : Type 0} (shell : Shell W) (encode : Text → Text) (pr : PrRef)
    (message operation_key : Text) (token : Option Text) where
  push_head-Follows :
      (sha : Text) (behind : Bool) (w : W)
      → Follows shell w
          (the_push encode pr token ∷ [])
          (push_head shell encode pr message operation_key token sha behind w)
  unfolding push_head
  push_head-Follows sha true w =
      stop-Follows shell w _ (not_pushed (some sha) (some (codes "remote_advanced"))) refl
  push_head-Follows sha false w =
      let pushed = (shell (the_push encode pr token) w).0 in
      elim (Bool-cases (pushed.returncode == 0)) [
        | inl well ↦ record {
          rest = [];
          begins = refl;
          honest = inr (refl, λ code. ground (arith, well));
        }
        | inr failed ↦ record { rest = []; begins = refl; honest = inl (rw failed refl) }
      ]

  publish-Follows :
      (w : W)
      → Follows shell w
          (publish_plan encode pr message operation_key token)
          (publish shell encode pr message operation_key token w)
  unfolding publish
  publish-Follows w =
      bind-Follows shell (run_git shell (commit_args message operation_key)) _ w _ _ refl refl λ _.
        bind-Follows shell (run_checked shell rev_parse_args) _ _ _ _ refl refl λ head.
          bind-Follows shell (run_checked shell rev_list_args) _ _ _ _ refl refl λ counted.
            after_pure-Follows shell _ (is_behind (strip counted.stdout)) _ _
              λ behind. push_head-Follows (strip head.stdout) behind _

  publish_staged-Follows :
      (diff : Completed) (w : W)
      → Follows shell w
          (publish_plan encode pr message operation_key token)
          (publish_staged shell encode pr message operation_key token diff w)
  unfolding publish_staged
  publish_staged-Follows diff w = elim (Bool-cases (diff.returncode == 0)) [
    | inl nothing ↦
        rw nothing (stop-Follows shell w _ (not_pushed none (some (codes "no_changes"))) refl)
    | inr staged ↦ rw staged (publish-Follows w)
  ]

  commit_once-Follows :
      (lookup : Completed) (w : W)
      → Follows shell w
          (add_args ∷ diff_args ∷ publish_plan encode pr message operation_key token)
          (commit_once shell encode pr message operation_key token lookup w)
        ⊎ (((commit_once shell encode pr message operation_key token lookup w).commands ≡ [])
            × (nonempty (strip lookup.stdout) ≡ true))
  unfolding commit_once
  commit_once-Follows lookup w = elim (Bool-cases (nonempty (strip lookup.stdout))) [
    | inl found ↦ inr (rw found refl, found)
    | inr new ↦ inl (
        rw new (
          let staged = publish_staged shell encode pr message operation_key token in
          let compared : Script W CommitResult = run_command shell diff_args >>= staged in
          bind-Follows shell (run_git shell add_args) (λ _. compared) w add_args _ refl refl
            λ _.
              let w' = (run_git shell add_args w).world in
              bind-Follows shell (run_command shell diff_args) staged w' diff_args _ refl refl
                λ diff. publish_staged-Follows diff (run_command shell diff_args w').world))
  ]

  look_up-Follows :
      (fetch : Completed) (w : W)
      → Follows shell w
          (log_args operation_key
            ∷ add_args
            ∷ diff_args
            ∷ publish_plan encode pr message operation_key token)
          (look_up shell encode pr message operation_key token fetch w)
        ⊎ (((look_up shell encode pr message operation_key token fetch w).commands
              ≡ log_args operation_key ∷ [])
            × (nonempty (strip (shell (log_args operation_key) w).0.stdout) ≡ true))
  unfolding look_up
  look_up-Follows fetch w = elim (Bool-cases (fetch.returncode == 0)) [
    | inr failed ↦
        inl (rw failed (stop-Follows shell w _ (not_pushed none (some (strip fetch.stderr))) refl))
    | inl ok ↦
        let (lookup, w') = shell (log_args operation_key) w in
        elim (commit_once-Follows lookup w') [
          | inl follows ↦ inl (
              rw ok (record {
                rest = follows.rest;
                begins = ap (λ (as' : List Arguments). log_args operation_key ∷ as') follows.begins;
                honest = elim follows.honest [
                  | inl no_push ↦ inl no_push
                  | inr (all_ran, well) ↦ inr (
                    ap (λ (as' : List Arguments). log_args operation_key ∷ as') all_ran,
                    λ code. well lookup.returncode,
                  )
                ];
              }))
          | inr (found, written) ↦
              inr
                (rw ok (ap (λ (as' : List Arguments). log_args operation_key ∷ as') found), written)
        ]
  ]

-- Whatever git answers, the commands that run are a beginning of: the fetch, the search for the key,
-- `add`, `diff`, one commit with the key in its message, `rev-parse`, `rev-list` and one push, to
-- the head branch of the pull request. A push is reported only if all of them have run and the last,
-- the push, has ended with the code 0, or if the search has printed a commit; in that case nothing
-- after the search has run.
pub push_changes_at-follows :
    {W : Type 0} (shell : Shell W) (encode : Text → Text) (pr : PrRef)
    (message operation_key : Text) (token : Option Text) (w : W)
    → let ran = push_changes_at shell encode pr message operation_key token w in
      let plan = push_plan encode pr message operation_key token in
      ((rest : List Arguments) × (ran.commands ++ rest ≡ plan))
      × ((says_pushed ran.result ≡ false)
          ⊎ ((ran.commands ≡ plan) × (last_code shell 1 plan w ≡ 0))
          ⊎ ((ran.commands ≡ the_fetch encode pr token ∷ log_args operation_key ∷ [])
              × (nonempty (strip (searched shell encode pr operation_key token w).stdout) ≡ true)))
unfolding push_changes_at
push_changes_at-follows shell encode pr message operation_key token w =
    let (fetch, w') = shell (the_fetch encode pr token) w in
    let then_fetch = λ (as' : List Arguments). the_fetch encode pr token ∷ as' in
    elim (look_up-Follows shell encode pr message operation_key token fetch w') [
      | inl follows ↦ (
        (follows.rest, ap then_fetch follows.begins),
        elim follows.honest [
          | inl no_push ↦ inl no_push
          | inr (all_ran, well) ↦ inr (inl (ap then_fetch all_ran, well fetch.returncode))
        ],
      )
      | inr (found, written) ↦ (
        (
          add_args ∷ diff_args ∷ publish_plan encode pr message operation_key token,
          ap
              (λ (as' : List Arguments).
                then_fetch (
                  as' ++ add_args ∷ diff_args ∷ publish_plan encode pr message operation_key token))
              found,
        ),
        inr (inr (ap then_fetch found, written)),
      )
    ]
