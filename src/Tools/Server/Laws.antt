-- ===== src/Tools/Server/Laws.antt =====
-- src/tools/local_repo.py: what a call of a tool may do to the files.
use agentic_temporal_wf.Base.{
  List, [], ◌∷◌, true, contains, text_eq, ℕ_discrete, ◌⊎◌, ◌≡◌, refl, inl, inr, returns, All,
  >>=-eq-returns, Outcome-cases,
}
use agentic_temporal_wf.Base.Text.{Text, codes}
use agentic_temporal_wf.Base.Json.{Json, null, boolean, number, string, array, object, index}
use agentic_temporal_wf.Workdir.{workdir_root_from_env, safe_join}
use agentic_temporal_wf.Workdir.Laws.{safe_join-Within}
use agentic_temporal_wf.Tools.Disk.{Disk, folders_above, make_folders}
use agentic_temporal_wf.Tools.Disk.Laws.{make_folders-Kept}
use agentic_temporal_wf.Tools.Repo.Laws.{Edited, same_entry, Edited-of_kept, apply_edit-Edited}
use agentic_temporal_wf.Tools.Server.{
  Session, Tool, tools, as_text, edit_arguments, edit_with, refuse_content, apply_edit_tool,
  read_file_tool, list_files_tool,
}

-- What a call may do to the entry of a path: an edit below `root`, or nothing.
abbrev pub Touched : Text → Text → Disk → Disk → Type 0
Touched root p disk next = (content : Text) × Edited root content p disk next

refuse_content-Touched :
    (root path p : Text) (disk : Disk)
    → Touched (disk.real root) p disk (refuse_content root path disk).1
unfolding refuse_content
refuse_content-Touched root path p disk = elim (Outcome-cases (safe_join disk.real root path)) [
  | inr (e, refused) ↦ ([], rw (refuse_content, refused) (same_entry refl))
  | inl (target, joined) ↦ (
    [],
    rw (refuse_content, joined)
        (Edited-of_kept (disk.real root) [] target p disk
          (make_folders (folders_above target) disk).1
          (safe_join-Within disk.real root path joined).0
          (make_folders-Kept (folders_above target) p disk).0),
  )
]

edit_with-Touched :
    (s : Session) (root path p : Text) (content : Json) (disk : Disk)
    → Touched (disk.real root) p disk (edit_with s root path content disk).1
unfolding edit_with
edit_with-Touched s root path p (string content) disk =
    (content, apply_edit-Edited s.sha1 root path content p disk)
edit_with-Touched s root path p null disk = refuse_content-Touched root path p disk
edit_with-Touched s root path p (boolean _) disk = refuse_content-Touched root path p disk
edit_with-Touched s root path p (number _) disk = refuse_content-Touched root path p disk
edit_with-Touched s root path p (array _) disk = refuse_content-Touched root path p disk
edit_with-Touched s root path p (object _) disk = refuse_content-Touched root path p disk

edit_arguments-root :
    (s : Session) (args : Json) (root : Text) {given path : Text} {content : Json}
    → workdir_root_from_env s.env s.task ≡ returns root
    → edit_arguments s args ≡ returns (given, path, content)
    → given ≡ root
unfolding edit_arguments
edit_arguments-root s args root at_ h =
    let (r, found, h1) = >>=-eq-returns (workdir_root_from_env s.env s.task) _ h in
    let (p, p_found, h2) = >>=-eq-returns (index args (codes "path")) _ h1 in
    let (c, c_found, h3) = >>=-eq-returns (index args (codes "new_content")) _ h2 in
    let (t, t_found, h4) = >>=-eq-returns (as_text p) _ h3 in cc (found, at_, h4)

apply_edit_tool-Touched :
    (s : Session) (args : Json) (disk : Disk) (root p : Text)
    → workdir_root_from_env s.env s.task ≡ returns root
    → Touched (disk.real root) p disk (apply_edit_tool s args disk).1
unfolding apply_edit_tool
apply_edit_tool-Touched s args disk root p at_ = elim (Outcome-cases (edit_arguments s args)) [
  | inr (e, refused) ↦ ([], rw (apply_edit_tool, refused) (same_entry refl))
  | inl ((given, path, content), read) ↦
      let same_root = edit_arguments-root s args root at_ read in
      rw (apply_edit_tool, read, ← same_root) (edit_with-Touched s given path p content disk)
]

-- The tools that run a command, which may do anything to the disk.
abbrev pub command_tools : List Text
command_tools = codes "run_ruff" ∷ codes "run_pytest" ∷ codes "git_status" ∷ []

-- Whatever tool of the server is called but `run_ruff`, `run_pytest` and `git_status`, with whatever
-- arguments and whether it succeeds or fails, each entry of the disk is as it was, or is a folder
-- that was missing and lies above a target in the working copy of the task, or lies in that working
-- copy itself and is a file.
pub tools-Touched :
    (s : Session) (args : Json) (disk : Disk) (root p : Text)
    → workdir_root_from_env s.env s.task ≡ returns root
    → All
        (λ (t : Tool).
          (contains command_tools t.name ≡ true)
          ⊎ Touched (disk.real root) p disk (t.call s args disk).1)
        tools
unfolding read_file_tool list_files_tool text_eq ℕ_discrete
tools-Touched s args disk root p at_ =
    let still : Touched (disk.real root) p disk disk = ([], same_entry refl) in
    (
      inr still,
      (
        inr still,
        (
          inr (apply_edit_tool-Touched s args disk root p at_),
          (inl refl, (inl refl, (inl refl, tt))),
        ),
      ),
    )
