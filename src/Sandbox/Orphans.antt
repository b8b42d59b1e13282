-- ===== src/Sandbox/Orphans.antt =====
-- src/activities/cleanup_orphans.py: which containers are taken for orphans, and their removal.
pub mod Laws
use agentic_temporal_wf.Base.{
  ℕ, suc, Bool, true, false, not, List, [], ◌∷◌, if◌then◌else◌, drop, length, ◌==◌, text_eq,
  Outcome, returns, raises, ◌>>=◌, ⊤,
}
use agentic_temporal_wf.Base.Text.{Text, codes, starts_with}

-- A container, by its id and its name.
abbrev pub Named : Type 0
Named = Text × Text

abbrev pub sandbox_name_prefix : Text
sandbox_name_prefix = codes "autofix-sbx-"

-- `_list_container_names`, of all the containers of the daemon.
unfoldable pub list_container_names : List Named → List Named
unfolding starts_with
list_container_names [] = []
list_container_names ((cid, name) ∷ containers) =
    let rest = list_container_names containers in
    if starts_with name sandbox_name_prefix then (cid, name) ∷ rest else rest

abbrev pub without_workflow : (Text → Bool) → List Named → List Named
without_workflow is_workflow_running [] = []
without_workflow is_workflow_running ((cid, name) ∷ containers) =
    let rest = without_workflow is_workflow_running containers in
    if not (is_workflow_running (drop (length sandbox_name_prefix) name))
    then (cid, name) ∷ rest
    else rest

-- `list_orphan_containers`
unfoldable pub list_orphan_containers : List Named → (Text → Bool) → List Named
unfolding list_container_names
list_orphan_containers containers is_workflow_running =
    without_workflow is_workflow_running (list_container_names containers)

-- `reap_orphans`: `reaped` says of which containers the daemon does all three calls.
unfoldable pub reap_orphans : (Text → Bool) → List Named → ℕ
reap_orphans reaped [] = 0
reap_orphans reaped ((cid, name) ∷ orphans) =
    let count = reap_orphans reaped orphans in if reaped cid then suc count else count

-- `gc_orphan_sandboxes`, where the lookup answers.
unfoldable pub gc_orphan_sandboxes : (Text → Bool) → (Text → Bool) → List Named → ℕ
unfolding list_orphan_containers reap_orphans
gc_orphan_sandboxes is_workflow_running reaped containers =
    reap_orphans reaped (list_orphan_containers containers is_workflow_running)

-- `_is_workflow_running_via_temporal`: `connected` says whether the client connects, and `describe`
-- is the name of the status of a workflow, or what the call raises.
unfoldable pub is_workflow_running_via_temporal :
    Outcome ⊤ → (Text → Outcome Text) → Text → Outcome Bool
unfolding text_eq
is_workflow_running_via_temporal connected describe workflow_id = do
  _ ← connected
  elim (describe workflow_id) [
    | returns status ↦ returns (status == codes "RUNNING")
    | raises _ ↦ returns false
  ]
