-- ===== src/Worker.antt =====
-- src/worker.py: what the worker of the platform is set up with. Temporal's client and worker are
-- not modelled.
use agentic_temporal_wf.Base.{
  Bool, Option, none, some, List, [], ◌∷◌, if◌then◌else◌, get_or, ◌==◌, text_eq,
}
use agentic_temporal_wf.Base.Dict.{Dict, lookup}
use agentic_temporal_wf.Base.Text.{Text, codes, nonempty}
use agentic_temporal_wf.PayloadStorage.{Codec, default_codec}

-- The activities and workflows are the names under which they are registered.
pub record Worker : Type 0 where
  pub target : Text
  pub payload_codec : Option Codec
  pub task_queue : Text
  pub workflows : List Text
  pub activities : List Text
  pub build_id : Text
  pub use_worker_versioning : Bool

-- `_build_id`
unfoldable pub build_id_of : Dict Text Text → Text
unfolding lookup
build_id_of environ = get_or (lookup (codes "WORKER_BUILD_ID") environ) (codes "dev")

-- `_use_versioning`
unfoldable pub use_versioning : Dict Text Text → Bool
unfolding lookup text_eq
use_versioning environ =
    get_or (lookup (codes "USE_WORKER_VERSIONING") environ) (codes "0") == codes "1"

-- `_data_converter`: none is the default converter, which has no codec.
unfoldable pub data_converter : Dict Text Text → Option Codec
unfolding lookup default_codec
data_converter environ =
    let bucket = get_or (lookup (codes "AWS_S3_BUCKET") environ) [] in
    if nonempty bucket then some (default_codec bucket) else none

abbrev pub registered : List Text
registered =
    codes "prepare_workdir"
    ∷ codes "cleanup_workdir"
    ∷ codes "post_status"
    ∷ codes "push_changes"
    ∷ codes "run_agent_iteration"
    ∷ codes "provision_sandbox"
    ∷ codes "exec_in_sandbox"
    ∷ codes "pause_sandbox"
    ∷ codes "resume_sandbox"
    ∷ codes "teardown_sandbox"
    ∷ codes "notify_human_for_approval"
    ∷ codes "snapshot_sandbox"
    ∷ codes "restore_sandbox"
    ∷ []

-- What `main` builds before it waits.
unfoldable pub main : Dict Text Text → Worker
unfolding lookup build_id_of use_versioning data_converter
main environ = record {
  target = get_or (lookup (codes "TEMPORAL_TARGET") environ) (codes "localhost:7233");
  payload_codec = data_converter environ;
  task_queue = get_or (lookup (codes "TEMPORAL_TASK_QUEUE") environ) (codes "pr-autofix");
  workflows = codes "PRAutofixWorkflow" ∷ [];
  activities = registered;
  build_id = build_id_of environ;
  use_worker_versioning = use_versioning environ;
}
