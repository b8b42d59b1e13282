-- ===== src/Sandbox/Orphans/Laws.antt =====
-- src/activities/cleanup_orphans.py: `list_orphan_containers` on the names that `sandbox.py` gives.
use agentic_temporal_wf.Base.{
  ℕ, Bool, true, false, List, [], ◌∷◌, ◌++◌, ◌≡◌, refl, ap, ◌∙◌, ap, arith, inl, inr, Bool-cases,
  ◌==◌, text_eq, nat_eq, contains, all, drop, length, map,
}
use mathlib.Core.Path.{ap₂}
use agentic_temporal_wf.Base.Text.{Text}
use agentic_temporal_wf.Sandbox.Provision.{safe_code, container_name}
use agentic_temporal_wf.Sandbox.Orphans.{
  Named, sandbox_name_prefix, list_container_names, without_workflow, list_orphan_containers,
}

abbrev pub names : List Named → List Text
names [] = []
names ((_, name) ∷ containers) = name ∷ names containers

-- The characters that a container's name keeps.
abbrev pub kept : (ℕ → Bool) → ℕ → Bool
kept beyond c = safe_code beyond c == c

==-sound : (a b : ℕ) → (a == b) ≡ true → a ≡ b
==-sound a b h = ground arith

kept-same : (beyond : ℕ → Bool) (c : ℕ) → kept beyond c ≡ true → safe_code beyond c ≡ c
kept-same beyond c h = ==-sound (safe_code beyond c) c h

kept-map :
    (beyond : ℕ → Bool) (id : Text) → all (kept beyond) id ≡ true → map (safe_code beyond) id ≡ id
kept-map beyond [] h = refl
kept-map beyond (c ∷ id) h =
    ap₂ ◌∷◌ (kept-same beyond c (ground arith)) (kept-map beyond id (ground arith))

spared :
    (is_workflow_running : Text → Bool) (name : Text) (containers : List Named)
    → is_workflow_running (drop (length sandbox_name_prefix) name) ≡ true
    → contains (names (without_workflow is_workflow_running containers)) name ≡ false
spared running name [] h = refl
spared running name ((cid, other) ∷ containers) h =
    elim (Bool-cases (running (drop (length sandbox_name_prefix) other))) [
      | inl runs ↦ rw runs (spared running name containers h)
      | inr ended ↦ rw ended (ground (arith, spared running name containers h, ended, h))
    ]

-- The container of a running workflow is not among the orphans, if a container's name keeps all the
-- characters of the workflow's id.
pub list_orphan_containers-spares :
    (beyond : ℕ → Bool) (is_workflow_running : Text → Bool) (workflow_id : Text)
    (containers : List Named)
    → all (kept beyond) workflow_id ≡ true
    → is_workflow_running workflow_id ≡ true
    → contains
        (names (list_orphan_containers containers is_workflow_running))
        (container_name beyond workflow_id)
      ≡ false
unfolding list_orphan_containers container_name
list_orphan_containers-spares beyond running workflow_id containers safe runs =
    let back : drop (length sandbox_name_prefix)
          (sandbox_name_prefix ++ map (safe_code beyond) workflow_id)
        ≡ workflow_id =
      kept-map beyond workflow_id safe in
    spared running (sandbox_name_prefix ++ map (safe_code beyond) workflow_id)
      (list_container_names containers) (ap running back ∙ runs)
