-- ===== src/Tests/Activities.antt =====
-- The theorems on the activities at concrete inputs.
use agentic_temporal_wf.Base.{
  ℕ, ◌⊎◌, Bool, true, false, none, some, List, [], ◌∷◌, ◌++◌, ◌≡◌, refl, all, length, take, drop,
  text_eq, ℕ_discrete, arith, returns, ⊤,
}
use agentic_temporal_wf.Base.Text.{Text, codes, nonempty, strip, has_infix, is_space}
use agentic_temporal_wf.Base.Regex.{dot}
use agentic_temporal_wf.Base.Dict.{lookup}
use agentic_temporal_wf.Models.{GitHubEvent, pr_synchronize, OperationRequest}
use agentic_temporal_wf.Base.Json.{object, end}
use agentic_temporal_wf.Gateway.Command.{match_command}
use agentic_temporal_wf.Gateway.Webhook.{Externals, is_own_commit}
use agentic_temporal_wf.Iteration.Demux.{Bytes, dispatch_into_sandbox}
use agentic_temporal_wf.Iteration.Demux.Laws.{Frame, encode, payloads}
use agentic_temporal_wf.Iteration.Demux.Chunks.{lines_of, dispatch_into_sandbox-lines}
use agentic_temporal_wf.Lifecycle.Prepare.{Workdir, prepare_workdir_at}
use agentic_temporal_wf.Lifecycle.Prepare.Laws.{Cloned, then_run, prepare_workdir_at-commands}
use agentic_temporal_wf.Iteration.Activity.{
  last_match, Validate, Progress, no_progress, consume, conclude,
}
use agentic_temporal_wf.Iteration.Activity.Fuel.{last_match-fuel}
use agentic_temporal_wf.Iteration.Activity.Laws.{is_result, consume-conclude}
use agentic_temporal_wf.Base.{contains, ◌+◌, Option, raises, Exception, inr, not, text_eq}
use agentic_temporal_wf.Base.Json.{Json, field, string, get}
use agentic_temporal_wf.Lifecycle.Approval.{render_approval_comment}
use agentic_temporal_wf.Lifecycle.Approval.Laws.{render_approval_comment-replies}
use agentic_temporal_wf.Lifecycle.Git.{Arguments, Shell}
use agentic_temporal_wf.Lifecycle.Push.{push_changes_at, log_args, full_message}
use agentic_temporal_wf.Lifecycle.Push.Laws.{
  last_code, searched, push_plan, the_fetch, says_pushed, push_changes_at-follows,
}
use agentic_temporal_wf.Lifecycle.Push.Trailer.{is_own_commit-full_message}
use agentic_temporal_wf.Sandbox.Provision.{
  Platform, Environ, Provisioned, provision_sandbox, sandbox_environment,
}
use agentic_temporal_wf.Sandbox.Provision.Environment.{sandbox_environment-names}
use agentic_temporal_wf.Sandbox.Provision.{container_name}
use agentic_temporal_wf.Sandbox.Orphans.{list_orphan_containers}
use agentic_temporal_wf.Sandbox.Orphans.Laws.{names, list_orphan_containers-spares}
use agentic_temporal_wf.Workflow.Keys.{IsDigest, is_hex, push_operation_key}
use agentic_temporal_wf.Tests.Data.{pr, digest, request, workflow_name}
use agentic_temporal_wf.Tests.Gateway.{externals}

-- A frame with a payload of less than 256 bytes.
abbrev frame_of : (stream : ℕ) (payload : Bytes) → Frame
frame_of stream payload = record {
  stream = stream;
  p1 = 0;
  p2 = 0;
  p3 = 0;
  a = 0;
  b = 0;
  c = 0;
  d = length payload;
  payload = payload;
  size = omega arith;
}

abbrev frames : List Frame
frames =
    frame_of 1 (codes "one\ntw") ∷ frame_of 2 (codes "warning") ∷ frame_of 1 (codes "o\nlast") ∷ []

abbrev cut : List Bytes
cut = take 11 (encode frames) ∷ drop 11 (encode frames) ∷ []

dispatch_into_sandbox-lines_example :
    dispatch_into_sandbox cut ≡ (lines_of (payloads 1 frames), lines_of (payloads 2 frames))
dispatch_into_sandbox-lines_example = dispatch_into_sandbox-lines frames cut refl refl

-- A repository where every command ends well and writes nothing.
abbrev quiet_shell : Shell ⊤
quiet_shell args w = (record { returncode = 0; stdout = []; stderr = [] }, w)

abbrev same_text : Text → Text
same_text t = t

push_changes_at-follows_example :
    ((rest : List Arguments) × ((push_changes_at quiet_shell same_text pr
            (codes "fix")
            (codes "k")
            (some (codes "t"))
            tt).commands
          ++ rest
        ≡ push_plan same_text pr (codes "fix") (codes "k") (some (codes "t"))))
    × ((says_pushed
            (push_changes_at quiet_shell same_text pr
              (codes "fix")
              (codes "k")
              (some (codes "t"))
              tt).result
          ≡ false)
        ⊎ (((push_changes_at quiet_shell same_text pr
                (codes "fix")
                (codes "k")
                (some (codes "t"))
                tt).commands
              ≡ push_plan same_text pr (codes "fix") (codes "k") (some (codes "t")))
            × (last_code quiet_shell 1
                  (push_plan same_text pr (codes "fix") (codes "k") (some (codes "t")))
                  tt
                ≡ 0))
        ⊎ (((push_changes_at quiet_shell same_text pr
                (codes "fix")
                (codes "k")
                (some (codes "t"))
                tt).commands
              ≡ the_fetch same_text pr (some (codes "t")) ∷ log_args (codes "k") ∷ [])
            × (nonempty (
                  strip
                    (searched quiet_shell same_text pr (codes "k") (some (codes "t")) tt).stdout)
                ≡ true)))
push_changes_at-follows_example =
    push_changes_at-follows quiet_shell same_text pr (codes "fix") (codes "k") (some (codes "t")) tt

abbrev own_externals : Externals
own_externals = record externals {
  fetch_commit_message = λ _ _ _. full_message (codes "fix") (codes "k");
}

abbrev synchronized : GitHubEvent
synchronized = record { kind = pr_synchronize; delivery_id = codes "d4"; payload = object end }

is_own_commit-full_message_example : is_own_commit own_externals pr synchronized ≡ true
is_own_commit-full_message_example =
    is_own_commit-full_message own_externals pr synchronized (codes "fix") (codes "k") refl refl

digits_of_digest : (raw : Text) → length (digest raw) ≡ 64
digits_of_digest raw = refl

hex_of_digest : (raw : Text) → all is_hex (digest raw) ≡ true
unfolding is_hex
hex_of_digest raw = ground arith

digest-IsDigest : IsDigest digest
digest-IsDigest = record { digits = digits_of_digest; hex = hex_of_digest }

abbrev write_request : OperationRequest → Text
write_request r = r.summary

abbrev push_key : Text
push_key = push_operation_key digest workflow_name 1

abbrev approval_comment : Text
approval_comment = render_approval_comment write_request (record {
  approval_id = push_key;
  tool_name = codes "push_changes";
  tool_input = request;
  iteration = 1;
})

render_approval_comment-replies_example :
    (has_infix approval_comment (codes "/autofix approve " ++ push_key) ≡ true)
    × (has_infix approval_comment (codes "/autofix deny " ++ (push_key ++ codes " <reason>"))
        ≡ true)
    × (match_command (codes "/autofix approve " ++ push_key)
        ≡ some (record { word = codes "approve"; approval_id = push_key; reason = none }))
    × (match_command (codes "/autofix deny " ++ (push_key ++ codes " no"))
        ≡ some (record { word = codes "deny"; approval_id = push_key; reason = some (codes "no") }))
unfolding is_space ℕ_discrete dot
render_approval_comment-replies_example =
    render_approval_comment-replies digest workflow_name 1 write_request request b'n' (codes "o")
      digest-IsDigest refl refl

abbrev platform : Platform
platform = record { post = λ _. returns tt; run = λ _. returns (codes "c1") }

abbrev environ : Environ
environ = (codes "BROKER_REGISTRATION_SECRET", codes "s") ∷ (codes "GITHUB_TOKEN", codes "g") ∷ []

abbrev beyond : ℕ → Bool
beyond _ = false

abbrev provisioned : Provisioned
provisioned =
    provision_sandbox platform beyond environ (codes "tok") workflow_name (codes "/w") (some pr)
      1000

sandbox_environment-names_example :
    lookup (codes "GITHUB_TOKEN") (sandbox_environment environ (codes "tok") workflow_name) ≡ none
unfolding text_eq
sandbox_environment-names_example =
    sandbox_environment-names environ (codes "tok") workflow_name (codes "GITHUB_TOKEN") refl

abbrev fresh_workdir : Workdir
fresh_workdir = record {
  has_git = false;
  clone_url = codes "https://github.com/o/r.git";
  head_ref = codes "fix";
  auth_token = some (codes "t");
  clean_origin_url = some (codes "https://github.com/o/r.git");
}

prepare_workdir_at-commands_example :
    ((e : Exception) × ((prepare_workdir_at quiet_shell same_text fresh_workdir tt).result
        ≡ raises e))
    ⊎ (((prepare_workdir_at quiet_shell same_text fresh_workdir tt).result ≡ returns tt)
        × ((cloned : List Arguments) × Cloned same_text fresh_workdir cloned
            × ((prepare_workdir_at quiet_shell same_text fresh_workdir tt).commands
                ≡ cloned ++ then_run same_text fresh_workdir)))
prepare_workdir_at-commands_example =
    prepare_workdir_at-commands quiet_shell same_text fresh_workdir tt

-- A reader of lines for which each is a message of the type that it names.
abbrev loads : Text → Option Json
loads line = some (object (field (codes "type") (string line) end))

abbrev validate : Validate
validate _ = inr (codes "ValidationError")

abbrev write_json : Json → Text
write_json _ = codes "..."

abbrev result_read : Progress
result_read = record no_progress { messages = 1; final_text = string (codes "{\"action\": 1}") }

abbrev system_read : Progress
system_read = record result_read { messages = 2 }

system_lines : all (λ line. not (is_result loads line)) (codes "system" ∷ []) ≡ true
unfolding get text_eq
system_lines = refl

system_consumed : consume loads (codes "system" ∷ []) result_read ≡ returns system_read
unfolding consume get text_eq
system_consumed = refl

consume-conclude_example :
    (conclude validate write_json system_read ≡ conclude validate write_json result_read)
    × (system_read.messages ≡ result_read.messages + 1)
consume-conclude_example =
    consume-conclude validate write_json loads (codes "system" ∷ []) result_read system_read
      system_lines system_consumed

abbrev all_run : Text → Bool
all_run _ = true

list_orphan_containers-spares_example :
    contains
      (names
        (list_orphan_containers ((codes "c1", container_name beyond workflow_name) ∷ []) all_run))
      (container_name beyond workflow_name)
    ≡ false
unfolding ℕ_discrete
list_orphan_containers-spares_example =
    list_orphan_containers-spares beyond all_run workflow_name
      ((codes "c1", container_name beyond workflow_name) ∷ []) refl refl

abbrev final_output : Text
final_output = codes "{} {\"action\": 1} {\"action\": 2} end"

last_match-fuel_example :
    last_match (1 + length final_output) final_output ≡ last_match 100 final_output
last_match-fuel_example =
    last_match-fuel (1 + length final_output) 100 final_output (omega arith) (omega arith)
