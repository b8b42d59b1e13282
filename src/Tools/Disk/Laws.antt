-- ===== src/Tools/Disk/Laws.antt =====
-- What the operations on the disk leave as it was.
use agentic_temporal_wf.Base.{value_error, Bool-cases, [], ◌⊎◌}
use agentic_temporal_wf.Base.{
  true, none, some, List, [], ◌∷◌, ◌≡◌, refl, ap, ◌∙◌, ◌⊎◌, inl, inr, arith, returns, raises,
  os_error, contains, text_eq, Option-cases,
}
use agentic_temporal_wf.Base.Text.{Text}
use agentic_temporal_wf.Base.Dict.{lookup, insert, lookup-insert, lookup-insert_ne}
use agentic_temporal_wf.Tools.Disk.{
  Disk, Entry, file, folder, make_folder, make_folders, write_text, encodable,
}

-- The entry of a path is as it was, or is a folder that was missing and is one of `paths`.
pub data Kept (paths : List Text) (p : Text) (disk next : Disk) : Type 0 where
  unchanged : lookup p next.entries ≡ lookup p disk.entries → Kept paths p disk next
  made :
      lookup p disk.entries ≡ none
      → lookup p next.entries ≡ some folder
      → contains paths p ≡ true
      → Kept paths p disk next

-- The entries once one is written.
abbrev pub put : Text → Entry → Disk → Disk
put path entry disk = record disk { entries = insert path entry disk.entries }

make_folder-cases :
    (path : Text) (disk : Disk)
    → (make_folder path disk ≡ raises os_error)
      ⊎ ((make_folder path disk ≡ returns disk)
          ⊎ ((lookup path disk.entries ≡ none)
              × (make_folder path disk ≡ returns (put path folder disk))))
unfolding make_folder
make_folder-cases path disk = elim (Option-cases (lookup path disk.entries)) [
  | inl missing ↦ inr (inr (missing, rw (make_folder, missing) refl))
  | inr (folder, e) ↦ inr (inl (rw (make_folder, e) refl))
  | inr (file content, e) ↦ inl (rw (make_folder, e) refl)
]

pub write_text-cases :
    (path content : Text) (disk : Disk)
    → (write_text path content disk ≡ (raises os_error, disk))
      ⊎ ((write_text path content disk ≡ (returns tt, put path (file content) disk))
          ⊎ (write_text path content disk ≡ (raises value_error, put path (file []) disk)))
unfolding write_text
write_text-cases path content disk = elim (Bool-cases (encodable content)) [
  | inl good ↦ elim (Option-cases (lookup path disk.entries)) [
    | inl missing ↦ inr (inl (rw (write_text, missing, good) refl))
    | inr (folder, e) ↦ inl (rw (write_text, e) refl)
    | inr (file _, e) ↦ inr (inl (rw (write_text, e, good) refl))
  ]
  | inr bad ↦ elim (Option-cases (lookup path disk.entries)) [
    | inl missing ↦ inr (inr (rw (write_text, missing, bad) refl))
    | inr (folder, e) ↦ inl (rw (write_text, e) refl)
    | inr (file _, e) ↦ inr (inr (rw (write_text, e, bad) refl))
  ]
]

-- A further path among those that may be made.
Kept-cons :
    (path : Text) (paths : List Text) (p : Text) (disk next : Disk)
    → Kept paths p disk next
    → Kept (path ∷ paths) p disk next
Kept-cons path paths p disk next (unchanged e) = unchanged e
Kept-cons path paths p disk next (made a b c) = made a b (ground arith)

-- A folder is made, and then the others are.
Kept-put :
    (path : Text) (paths : List Text) (p : Text) (disk next : Disk)
    → lookup path disk.entries ≡ none
    → Kept paths p (put path folder disk) next
    → Kept (path ∷ paths) p disk next
Kept-put path paths p disk next missing (unchanged e) = elim (text_eq.dec p path) [
  | yes same_ ↦
      made (ap (λ (t : Text). lookup t disk.entries) same_ ∙ missing)
        (e ∙ lookup-insert p path folder disk.entries ∙ ground arith) (ground arith)
  | no other ↦ unchanged (e ∙ lookup-insert_ne p path folder disk.entries other)
]
Kept-put path paths p disk next missing (made a b c) =
    made (ground (arith, a, lookup-insert p path folder disk.entries)) b (ground arith)

pub make_folders-Kept :
    (paths : List Text) (p : Text) (disk : Disk)
    → Kept paths p disk (make_folders paths disk).1 × ((make_folders paths disk).1.real ≡ disk.real)
unfolding make_folders
make_folders-Kept [] p disk = (unchanged refl, refl)
make_folders-Kept (path ∷ paths) p disk = elim (make_folder-cases path disk) [
  | inl failed ↦ rw (make_folders, failed) (unchanged refl, refl)
  | inr (inl there) ↦
      let (k, r) = make_folders-Kept paths p disk in
      rw (make_folders, there) (Kept-cons path paths p disk _ k, r)
  | inr (inr (missing, added)) ↦
      let (k, r) = make_folders-Kept paths p (put path folder disk) in
      rw (make_folders, added) (Kept-put path paths p disk _ missing k, r)
]
