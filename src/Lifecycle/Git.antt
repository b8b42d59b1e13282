-- ===== src/Lifecycle/Git.antt =====
-- `subprocess.run`: a script runs commands on a world that is an argument, and is kept with the
-- commands that it ran. `_run` and `_git_network_args` run git.
use agentic_temporal_wf.Base.{
  ℕ, Option, none, some, List, [], ◌∷◌, ◌++◌, if◌then◌else◌, ◌==◌, nat_eq,
}
use agentic_temporal_wf.Base.{Outcome, returns, raises, runtime_error, called_process_error}
use agentic_temporal_wf.Base.Text.{Text, codes, nonempty}
use agentic_temporal_wf.Models.{PrRef}

abbrev pub Arguments : Type 0
Arguments = List Text

-- `subprocess.CompletedProcess`
pub record Completed : Type 0 where
  pub returncode : ℕ
  pub stdout : Text
  pub stderr : Text

-- What a command does in the workspace: the process and the world that it leaves.
abbrev pub Shell : Type 0 → Type 0
Shell W = Arguments → W → Completed × W

pub record Ran (W A : Type 0) : Type 0 where
  pub commands : List Arguments
  pub world : W
  pub result : Outcome A

abbrev pub Script : Type 0 → Type 0 → Type 0
Script W A = W → Ran W A

abbrev pub after_commands :
    {W A B : Type 0} → List Arguments → W → Outcome A → (A → Script W B) → Ran W B
after_commands commands w (returns a) f =
    let next = f a w in
    record { commands = commands ++ next.commands; world = next.world; result = next.result }
after_commands commands w (raises e) f = record {
  commands = commands;
  world = w;
  result = raises e;
}

infixl 5 ◌>>=◌
abbrev pub ◌>>=◌ : {W A B : Type 0} → Script W A → (A → Script W B) → Script W B
◌>>=◌ m f w = let ran = m w in after_commands ran.commands ran.world ran.result f

infixl 5 ◌>>◌
abbrev pub ◌>>◌ : {W A B : Type 0} → Script W A → Script W B → Script W B
m >> k = m >>= λ _. k

abbrev pub pure : {W A : Type 0} → Outcome A → Script W A
pure m w = record { commands = []; world = w; result = m }

module _ {W : Type 0} (shell : Shell W) where
  -- `subprocess.run(..., check=False)`
  abbrev pub run_command : Arguments → Script W Completed
  run_command args w =
      let (completed, w') = shell args w in
      record { commands = args ∷ []; world = w'; result = returns completed }

  abbrev checked : Completed → Outcome Completed
  checked c = if c.returncode == 0 then returns c else raises called_process_error

  -- `subprocess.run(..., check=True)`
  abbrev pub run_checked : Arguments → Script W Completed
  run_checked args = run_command args >>= λ c. pure (checked c)

  abbrev no_failure : Completed → Outcome Completed
  no_failure c = if c.returncode == 0 then returns c else raises runtime_error

  -- `_run`
  abbrev pub run_git : Arguments → Script W Completed
  run_git args = run_command args >>= λ c. pure (no_failure c)

-- `_git_network_args`, where `encode` is base64 of the UTF-8 bytes.
unfoldable pub git_network_args : (Text → Text) → Arguments → Option Text → Arguments
git_network_args encode args none = codes "git" ∷ args
git_network_args encode args (some token) =
    if nonempty token
    then codes "git"
      ∷ codes "-c"
      ∷ (codes "http.extraHeader=Authorization: Basic "
          ++ encode (codes "x-access-token:" ++ token))
      ∷ args
    else codes "git" ∷ args

-- `_clone_url`
unfoldable pub clone_url : PrRef → Text
clone_url pr = codes "https://github.com/" ++ pr.owner ++ codes "/" ++ pr.repo ++ codes ".git"
