-- ===== src/Lifecycle/Prepare.antt =====
-- `prepare_workdir`: clone or fetch the branch of the pull request.
pub mod Laws
use agentic_temporal_wf.Base.{
  ℕ, Bool, true, false, Option, none, some, List, [], ◌∷◌, ◌++◌, if◌then◌else◌, ◌==◌, nat_eq,
}
use agentic_temporal_wf.Base.{Outcome, returns, raises, ⊤}
use agentic_temporal_wf.Base.Text.{Text, codes, nonempty}
use agentic_temporal_wf.Workdir.{workdir_root}
use agentic_temporal_wf.Models.{PrRef}
use agentic_temporal_wf.Lifecycle.Git.{
  clone_url, Arguments, Completed, Shell, Script, Ran, ◌>>=◌, ◌>>◌, pure, run_command, run_git,
  git_network_args,
}

-- What `_prepare_workdir_at` is given; `has_git` says whether the workspace holds a `.git` directory.
pub record Workdir : Type 0 where
  pub has_git : Bool
  pub clone_url : Text
  pub head_ref : Text
  pub auth_token : Option Text
  pub clean_origin_url : Option Text

module _ (encode : Text → Text) (w : Workdir) where
  unfoldable pub fast_clone : Arguments
  unfolding git_network_args
  fast_clone =
      git_network_args encode
        (codes "clone"
          ∷ codes "--depth=1"
          ∷ codes "--single-branch"
          ∷ codes "--branch"
          ∷ w.head_ref
          ∷ codes "--filter=blob:none"
          ∷ w.clone_url
          ∷ codes "."
          ∷ [])
        w.auth_token

  unfoldable pub plain_clone : Arguments
  unfolding git_network_args
  plain_clone =
      git_network_args encode
        (codes "clone"
          ∷ codes "--depth=1"
          ∷ codes "--filter=blob:none"
          ∷ w.clone_url
          ∷ codes "."
          ∷ [])
        w.auth_token

  abbrev pub set_origin : Option Text → List Arguments
  set_origin none = []
  set_origin (some url) =
      if nonempty url
      then (codes "git" ∷ codes "remote" ∷ codes "set-url" ∷ codes "origin" ∷ url ∷ []) ∷ []
      else []

  -- The commands after the clone.
  unfoldable pub setup : List Arguments
  unfolding git_network_args
  setup =
      (codes "git" ∷ codes "config" ∷ codes "user.name" ∷ codes "Claude" ∷ [])
      ∷ (codes "git" ∷ codes "config" ∷ codes "user.email" ∷ codes "noreply@anthropic.com" ∷ [])
      ∷ git_network_args encode
          (codes "fetch" ∷ codes "--depth=1" ∷ codes "origin" ∷ w.head_ref ∷ []) w.auth_token
      ∷ (codes "git" ∷ codes "reset" ∷ codes "--hard" ∷ codes "FETCH_HEAD" ∷ [])
      ∷ (codes "git" ∷ codes "checkout" ∷ codes "-B" ∷ w.head_ref ∷ codes "FETCH_HEAD" ∷ [])
      ∷ set_origin w.clean_origin_url

module _ {W : Type 0} (shell : Shell W) where
  -- `_run` for each of the commands.
  unfoldable pub run_all : List Arguments → Script W ⊤
  run_all [] = pure (returns tt)
  run_all (args ∷ more) = let rest = run_all more in run_git shell args >> rest

  -- A clone that fails is tried again without the branch.
  unfoldable pub clone_again : Arguments → Completed → Script W ⊤
  unfolding run_all
  clone_again args fast = if fast.returncode == 0 then pure (returns tt) else run_all (args ∷ [])

  unfoldable pub clone : (Text → Text) → Workdir → Script W ⊤
  unfolding fast_clone plain_clone clone_again
  clone encode w = if w.has_git then pure (returns tt) else (do
    fast ← run_command shell (fast_clone encode w)
    clone_again (plain_clone encode w) fast)

  -- `_prepare_workdir_at`
  unfoldable pub prepare_workdir_at : (Text → Text) → Workdir → Script W ⊤
  unfolding clone run_all setup
  prepare_workdir_at encode w = do clone encode w; run_all (setup encode w)

-- `prepare_workdir`: in the directory of the workflow, with the token in the network commands alone.
unfoldable pub prepare_workdir :
    {W : Type 0}
    → (Text → Shell W)
    → (Text → Text)
    → Option Text
    → Bool
    → Text
    → Text
    → PrRef
    → Script W ⊤
unfolding prepare_workdir_at workdir_root clone_url
prepare_workdir shell_at encode root has_git token workflow_id pr =
    prepare_workdir_at (shell_at (workdir_root root workflow_id)) encode (record {
      has_git = has_git;
      clone_url = clone_url pr;
      head_ref = pr.head_ref;
      auth_token = some token;
      clean_origin_url = some (clone_url pr);
    })
