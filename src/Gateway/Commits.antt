-- ===== src/Gateway/Commits.antt =====
-- src/gateway/app.py: the message of a commit, from the reply of GitHub.
use agentic_temporal_wf.Base.{
  ℕ, not, ◌||◌, Option, none, some, ◌++◌, if◌then◌else◌, ◌==◌, nat_eq, get_or, [], Outcome, returns,
  ◌>>=◌,
}
use agentic_temporal_wf.Base.Text.{Text, codes, nonempty}
use agentic_temporal_wf.Base.Json.{Json, string, object, end, get, truthy}

-- A reply with its status and its body, none for one that is no JSON; or an `httpx.HTTPError`.
pub data HttpReply : Type 0 where
  answered : ℕ → Option Json → HttpReply
  failed : HttpReply

-- `commit` and `message` of the body.
unfoldable pub message_of : Json → Outcome Json
unfolding get truthy
message_of body = do
  commit ← get body (codes "commit")
  message ← get (get_or commit (object end)) (codes "message")
  let v = get_or message (string [])
  returns (if truthy v then v else string [])

-- `_fetch_commit_message`; `token` is the value of `GITHUB_TOKEN`, and `reply` is what GitHub
-- answers at a URL.
unfoldable pub fetch_commit_message :
    Option Text → (Text → HttpReply) → Text → Text → Text → Outcome Json
unfolding message_of
fetch_commit_message token reply owner repo sha =
    let url =
      codes "https://api.github.com/repos/"
      ++ owner
      ++ codes "/"
      ++ repo
      ++ codes "/commits/"
      ++ sha in
    let asked : Outcome Json = elim (reply url) [
      | failed ↦ returns (string [])
      | answered status none ↦ returns (string [])
      | answered status (some body) ↦ if status == 200 then message_of body else returns (string [])
    ] in
    if not (nonempty (get_or token [])) || not (nonempty sha) then returns (string []) else asked
