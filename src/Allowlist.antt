-- ===== src/Allowlist.antt =====
-- src/repo_allowlist.py: the repositories on which the agent may run.
pub mod Laws
use agentic_temporal_wf.Base.{
  Bool, Option, none, some, List, [], ◌∷◌, ◌++◌, ⊤, Outcome, returns, raises,
}
use agentic_temporal_wf.Base.{repo_denied, contains, text_eq, if◌then◌else◌, get_or}
use agentic_temporal_wf.Base.Text.{Text, codes, split, strip, nonempty}

-- `[s.strip() for s in items if s.strip()]`
unfoldable pub trimmed : List Text → List Text
trimmed [] = []
trimmed (s ∷ items) = if nonempty (strip s) then strip s ∷ trimmed items else trimmed items

-- The items of a comma-separated environment variable, which may be unset.
unfoldable pub env_items : Option Text → List Text
unfolding trimmed split
env_items raw = trimmed (split b',' (get_or raw []))

pub record RepoAllowlist : Type 0 where
  pub repos : List Text

-- `RepoAllowlist.from_env`, from the value of `ALLOWED_REPOS`.
unfoldable pub from_env : Option Text → RepoAllowlist
unfolding env_items
from_env raw = record { repos = env_items raw }

abbrev pub slug : Text → Text → Text
slug owner repo = owner ++ codes "/" ++ repo

-- `RepoAllowlist.check`
unfoldable pub check : RepoAllowlist → Text → Text → Outcome ⊤
check allowlist owner repo =
    if contains allowlist.repos (slug owner repo) then returns tt else raises repo_denied
