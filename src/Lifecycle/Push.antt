-- ===== src/Lifecycle/Push.antt =====
-- `push_changes`: commit and push the workspace of a pull request.
pub mod Laws
pub mod Trailer
use agentic_temporal_wf.Base.{
  ℕ, Bool, true, false, not, ◌&&◌, ◌||◌, Option, none, some, List, [], ◌∷◌, ◌++◌, if◌then◌else◌,
  ◌==◌, nat_eq, ltb, all,
}
use agentic_temporal_wf.Base.{Outcome, returns, raises, value_error}
use agentic_temporal_wf.Base.Text.{Text, codes, strip, nonempty, to_int, within}
use agentic_temporal_wf.Models.{PrRef, CommitResult}
use agentic_temporal_wf.Workdir.{workdir_root}
use agentic_temporal_wf.Lifecycle.Git.{
  Arguments, Completed, Shell, Script, Ran, ◌>>=◌, ◌>>◌, pure, run_command, run_checked, run_git,
  git_network_args, clone_url,
}

-- `AUTOFIX_COMMIT_TRAILER`
abbrev pub autofix_commit_trailer : Text
autofix_commit_trailer = codes "[autofix-bot]"

abbrev line_end : ℕ → Bool
line_end c = within 10 13 c || within 28 30 c || c == 0x85 || c == 0x2028 || c == 0x2029

-- `s.splitlines()[0]`, of a text that is not empty.
unfoldable pub first_line : Text → Text
first_line [] = []
first_line (c ∷ s) = let rest = first_line s in if line_end c then [] else c ∷ rest

abbrev pub not_pushed : Option Text → Option Text → CommitResult
not_pushed sha reason = record { pushed = false; commit_sha = sha; reason = reason }

abbrev pub done : Text → CommitResult
done sha = record { pushed = true; commit_sha = some sha; reason = none }

-- `int(s)` of the digits that git writes; any other text is taken to raise.
abbrev int_of : Text → Outcome ℕ
int_of s = if nonempty s && all (within b'0' b'9') s then returns (to_int s) else raises value_error

-- `behind and int(behind) > 0`
abbrev pub is_behind : Text → Outcome Bool
is_behind [] = returns false
is_behind (c ∷ s) = elim (int_of (c ∷ s)) [ raises e ↦ raises e | returns n ↦ returns (ltb 0 n) ]

-- `operation_key` in the commit message.
unfoldable pub full_message : Text → Text → Text
full_message message operation_key =
    message
    ++ codes "\n\n"
    ++ autofix_commit_trailer
    ++ codes "\nAutofix-Idempotency: "
    ++ operation_key

-- The arguments of the commands.
unfoldable pub fetch_args : Text → PrRef → Arguments
fetch_args origin pr = codes "fetch" ∷ codes "--depth=50" ∷ origin ∷ pr.head_ref ∷ []

unfoldable pub log_args : Text → Arguments
log_args operation_key =
    codes "git"
    ∷ codes "log"
    ∷ codes "FETCH_HEAD"
    ∷ codes "--format=%H%n%B%x00"
    ∷ codes "--fixed-strings"
    ∷ (codes "--grep=Autofix-Idempotency: " ++ operation_key)
    ∷ []

abbrev pub add_args : Arguments
add_args = codes "git" ∷ codes "add" ∷ codes "-A" ∷ []

abbrev pub diff_args : Arguments
diff_args = codes "git" ∷ codes "diff" ∷ codes "--cached" ∷ codes "--quiet" ∷ []

unfoldable pub commit_args : Text → Text → Arguments
unfolding full_message
commit_args message operation_key =
    codes "git" ∷ codes "commit" ∷ codes "-m" ∷ full_message message operation_key ∷ []

abbrev pub rev_parse_args : Arguments
rev_parse_args = codes "git" ∷ codes "rev-parse" ∷ codes "HEAD" ∷ []

abbrev pub rev_list_args : Arguments
rev_list_args = codes "git" ∷ codes "rev-list" ∷ codes "--count" ∷ codes "HEAD..FETCH_HEAD" ∷ []

unfoldable pub push_args : Text → PrRef → Arguments
push_args origin pr = codes "push" ∷ origin ∷ (codes "HEAD:" ++ pr.head_ref) ∷ []

-- `_clone_url(pr) if github_token else "origin"`
unfoldable pub origin_of : PrRef → Option Text → Text
unfolding clone_url
origin_of pr none = codes "origin"
origin_of pr (some token) = if nonempty token then clone_url pr else codes "origin"

-- The inner function `network`.
abbrev pub network : (Text → Text) → Option Text → Arguments → Arguments
network encode github_token args = git_network_args encode args github_token

module _ {W : Type 0} (shell : Shell W) (encode : Text → Text) (pr : PrRef)
    (message operation_key : Text) (github_token : Option Text) where
  -- The last step: the push, unless the remote has moved on.
  unfoldable pub push_head : Text → Bool → Script W CommitResult
  unfolding push_args git_network_args origin_of strip
  push_head sha true = pure (returns (not_pushed (some sha) (some (codes "remote_advanced"))))
  push_head sha false = do
    pushed ←
        run_command shell (network encode github_token (push_args (origin_of pr github_token) pr))
    pure (
        returns (
          if pushed.returncode == 0
          then done sha
          else not_pushed (some sha) (some (strip pushed.stderr))))

  -- From the commit on.
  unfoldable pub publish : Script W CommitResult
  unfolding commit_args strip to_int push_head
  publish = do
    run_git shell (commit_args message operation_key)
    head ← run_checked shell rev_parse_args
    counted ← run_checked shell rev_list_args
    behind ← pure (is_behind (strip counted.stdout))
    push_head (strip head.stdout) behind

  -- `git diff --cached --quiet` has the code 0 if nothing is staged.
  unfoldable pub publish_staged : Completed → Script W CommitResult
  unfolding publish
  publish_staged diff =
      if diff.returncode == 0
      then pure (returns (not_pushed none (some (codes "no_changes"))))
      else publish

  -- A commit of the operation that the branch already has is the result.
  unfoldable pub commit_once : Completed → Script W CommitResult
  unfolding strip first_line publish_staged
  commit_once lookup =
      if nonempty (strip lookup.stdout)
      then pure (returns (done (first_line lookup.stdout)))
      else (do run_git shell add_args; diff ← run_command shell diff_args; publish_staged diff)

  unfoldable pub look_up : Completed → Script W CommitResult
  unfolding log_args strip commit_once
  look_up fetch =
      if not (fetch.returncode == 0)
      then pure (returns (not_pushed none (some (strip fetch.stderr))))
      else (do lookup ← run_command shell (log_args operation_key); commit_once lookup)

  -- `_push_changes_at`
  unfoldable pub push_changes_at : Script W CommitResult
  unfolding fetch_args git_network_args origin_of look_up
  push_changes_at = do
    fetch ←
        run_command shell (network encode github_token (fetch_args (origin_of pr github_token) pr))
    look_up fetch

-- `push_changes`: a push from the directory of the workflow. `shell_at` runs commands in a directory.
unfoldable pub push_changes :
    {W : Type 0}
    → (Text → Shell W)
    → (Text → Text)
    → Option Text
    → Text
    → PrRef
    → Text
    → Text
    → Text
    → Script W CommitResult
unfolding push_changes_at workdir_root
push_changes shell_at encode root token pr workflow_id message operation_key =
    push_changes_at (shell_at (workdir_root root workflow_id)) encode pr message operation_key
      (some token)
