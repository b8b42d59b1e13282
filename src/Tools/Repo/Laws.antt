-- ===== src/Tools/Repo/Laws.antt =====
-- src/tools/_local_repo_impl.py: what an edit does to the files, and that it is read back.
use mathlib.Core.Path.{subst}
use agentic_temporal_wf.Base.{
  true, none, some, [], ◌≡◌, refl, sym, ap, ◌∙◌, inl, inr, Outcome, returns, ◌>>=◌, ⊤, contains,
  text_eq, Outcome-cases,
}
use agentic_temporal_wf.Base.Text.{Text}
use agentic_temporal_wf.Base.Dict.{lookup, lookup-insert_ne, lookup-insert_self}
use agentic_temporal_wf.Workdir.{safe_join}
use agentic_temporal_wf.Workdir.Laws.{Within, safe_join-Within}
use agentic_temporal_wf.Tools.Disk.{
  Disk, file, folder, folders_above, make_folders, read_text, universal_newlines,
}
use agentic_temporal_wf.Tools.Disk.Laws.{
  Kept, unchanged, made, put, make_folders-Kept, write_text-cases,
}
use agentic_temporal_wf.Tools.Repo.{read_file, write_at, apply_edit}

-- What an edit may do to the entry of a path: nothing, make a folder that was missing above a
-- target in the directory, write the content to a target in the directory, or empty it.
pub data Edited (root content p : Text) (disk next : Disk) : Type 0 where
  same_entry : lookup p next.entries ≡ lookup p disk.entries → Edited root content p disk next
  new_folder :
      (target : Text)
      → Within root target
      → contains (folders_above target) p ≡ true
      → lookup p disk.entries ≡ none
      → lookup p next.entries ≡ some folder
      → Edited root content p disk next
  written :
      Within root p → lookup p next.entries ≡ some (file content) → Edited root content p disk next
  emptied : Within root p → lookup p next.entries ≡ some (file []) → Edited root content p disk next

pub Edited-of_kept :
    (root content target p : Text) (disk next : Disk)
    → Within root target
    → Kept (folders_above target) p disk next
    → Edited root content p disk next
Edited-of_kept root content target p disk next w (unchanged e) = same_entry e
Edited-of_kept root content target p disk next w (made a b c) = new_folder target w c a b

Edited-next :
    (root content p : Text) (disk next last : Disk)
    → lookup p last.entries ≡ lookup p next.entries
    → Edited root content p disk next
    → Edited root content p disk last
Edited-next root content p disk next last q (same_entry e) = same_entry (q ∙ e)
Edited-next root content p disk next last q (new_folder t w c a b) = new_folder t w c a (q ∙ b)
Edited-next root content p disk next last q (written w e) = written w (q ∙ e)
Edited-next root content p disk next last q (emptied w e) = emptied w (q ∙ e)

-- The last write.
Edited-put :
    (root content target p : Text) (disk next : Disk)
    → Within root target
    → Edited root content p disk next
    → Edited root content p disk (put target (file content) next)
Edited-put root content target p disk next w e = elim (text_eq.dec p target) [
  | yes same_ ↦ written (subst (Within root) (sym same_) w) (
      ap (λ (t : Text). lookup t (put target (file content) next).entries) same_
      ∙ lookup-insert_self target (file content) next.entries)
  | no other ↦
      Edited-next root content p disk next (put target (file content) next)
        (lookup-insert_ne p target (file content) next.entries other) e
]

-- A write that fails on its content.
Edited-cut :
    (root content target p : Text) (disk next : Disk)
    → Within root target
    → Edited root content p disk next
    → Edited root content p disk (put target (file []) next)
Edited-cut root content target p disk next w e = elim (text_eq.dec p target) [
  | yes same_ ↦ emptied (subst (Within root) (sym same_) w) (
      ap (λ (t : Text). lookup t (put target (file []) next).entries) same_
      ∙ lookup-insert_self target (file []) next.entries)
  | no other ↦
      Edited-next root content p disk next (put target (file []) next)
        (lookup-insert_ne p target (file []) next.entries other) e
]

write_at-Edited :
    (root content target p : Text) (disk : Disk)
    → Within root target
    → Edited root content p disk (write_at target content disk).1
unfolding write_at
write_at-Edited root content target p disk w =
    let next = (make_folders (folders_above target) disk).1 in
    let kept =
      Edited-of_kept root content target p disk next w
        (make_folders-Kept (folders_above target) p disk).0 in
    elim (Outcome-cases (make_folders (folders_above target) disk).0) [
      | inr (e, failed) ↦ rw (write_at, failed) kept
      | inl (_, done) ↦ elim (write_text-cases target content next) [
        | inl refused ↦ rw (write_at, done, refused) kept
        | inr (inr cut) ↦
            rw (write_at, done, cut) (Edited-cut root content target p disk next w kept)
        | inr (inl put_) ↦
            rw (write_at, done, put_) (Edited-put root content target p disk next w kept)
      ]
    ]

-- Whatever path is named, and whether the edit succeeds or fails, an entry of the disk is as
-- it was, or is a folder that was missing and lies above a target in the directory of the run, or
-- lies in that directory itself and holds the new content or nothing.
pub apply_edit-Edited :
    (sha1 : Text → Text) (workdir path content p : Text) (disk : Disk)
    → Edited (disk.real workdir) content p disk (apply_edit sha1 workdir path content disk).1
unfolding apply_edit
apply_edit-Edited sha1 workdir path content p disk =
    elim (Outcome-cases (safe_join disk.real workdir path)) [
      | inr (e, refused) ↦ rw (apply_edit, refused) (same_entry refl)
      | inl (target, joined) ↦
          rw (apply_edit, joined)
            (write_at-Edited (disk.real workdir) content target p disk
              (safe_join-Within disk.real workdir path joined).0)
    ]

write_at-returns :
    (target content : Text) (disk next : Disk)
    → write_at target content disk ≡ (returns tt, next)
    → (lookup target next.entries ≡ some (file content)) × (next.real ≡ disk.real)
unfolding write_at
write_at-returns target content disk next h =
    let mid = (make_folders (folders_above target) disk).1 in
    let r = (make_folders-Kept (folders_above target) target disk).1 in
    elim (Outcome-cases (make_folders (folders_above target) disk).0) [
      | inr (e, failed) ↦ let q = rw (write_at, failed) at h in cc (q)
      | inl (_, done) ↦ elim (write_text-cases target content mid) [
        | inl refused ↦ let q = rw (write_at, done, refused) at h in cc (q)
        | inr (inr cut) ↦ let q = rw (write_at, done, cut) at h in cc (q)
        | inr (inl put_) ↦
            let q = ap (λ (t : Outcome ⊤ × Disk). t.1) (rw (write_at, done, put_) at h) in
            subst
              (λ (d : Disk). (lookup target d.entries ≡ some (file content)) × (d.real ≡ disk.real))
              q (lookup-insert_self target (file content) mid.entries, r)
      ]
    ]

read_text-file :
    (path content : Text) (disk : Disk)
    → lookup path disk.entries ≡ some (file content)
    → read_text path disk ≡ returns (universal_newlines content)
unfolding read_text
read_text-file path content disk e = rw (read_text, e) refl

-- What an edit that succeeded has done, up to the write.
apply_edit-returns :
    (sha1 : Text → Text) (workdir path content : Text) (disk next : Disk) {sha : Text}
    → apply_edit sha1 workdir path content disk ≡ (returns sha, next)
    → (target : Text) × (safe_join disk.real workdir path ≡ returns target)
      × (write_at target content disk ≡ (returns tt, next))
      × (sha ≡ sha1 content)
unfolding apply_edit
apply_edit-returns sha1 workdir path content disk next h =
    elim (Outcome-cases (safe_join disk.real workdir path)) [
      | inr (e, refused) ↦
          let q = rw (apply_edit, refused) at h in cc (ap (λ (t : Outcome Text × Disk). t.0) q)
      | inl (target, joined) ↦
          let q = rw (apply_edit, joined) at h in
          let result = ap (λ (t : Outcome Text × Disk). t.0) q in
          let last = ap (λ (t : Outcome Text × Disk). t.1) q in
          elim (Outcome-cases (write_at target content disk).0) [
            | inr (e, failed) ↦ let r = rw failed at result in cc (r)
            | inl (_, done) ↦
                let r = rw done at result in (target, joined, λ i. (done i, last i), cc (r))
          ]
    ]

-- A file that is read after an edit of the same path has the content of the edit, with its line
-- ends as text mode reads them, and the edit answers with the digest of the content.
pub read_file-apply_edit :
    (sha1 : Text → Text) (workdir path content : Text) (disk next : Disk) {sha : Text}
    → apply_edit sha1 workdir path content disk ≡ (returns sha, next)
    → (read_file next workdir path ≡ returns (universal_newlines content)) × (sha ≡ sha1 content)
unfolding read_file
read_file-apply_edit sha1 workdir path content disk next h =
    let (target, joined, wrote, digest) =
      apply_edit-returns sha1 workdir path content disk next h in
    let (held, real) = write_at-returns target content disk next wrote in
    (
      ap (λ (r : Text → Text). safe_join r workdir path >>= λ t. read_text t next) real
          ∙ (ap (λ (m : Outcome Text). m >>= λ t. read_text t next) joined
              ∙ read_text-file target content next held),
      digest,
    )
