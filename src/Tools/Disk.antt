-- ===== src/Tools/Disk.antt =====
-- The file system below the tools: files and folders by their resolved paths.
pub mod Laws
use agentic_temporal_wf.Base.{
  ℕ, Bool, true, false, Option, none, some, List, [], ◌∷◌, ◌++◌, if◌then◌else◌, ◌==◌, nat_eq,
  text_eq, Outcome, returns, raises, os_error, value_error, ⊤, all, not,
}
use agentic_temporal_wf.Base.Dict.{Dict, lookup, insert}
use agentic_temporal_wf.Base.Text.{Text, within}
use agentic_temporal_wf.Base.OsPath.{slash}

pub data Entry : Type 0 where
  file : Text → Entry
  folder : Entry

-- `real` is `os.path.realpath` with the links that the disk has: what a path is once its links,
-- `.` and `..` are followed.
pub record Disk : Type 0 where
  pub real : Text → Text
  pub entries : Dict Text Entry

-- The folders above a path, the outermost first, without the root: what `mkdir(parents=True)` on
-- the parent of the path goes through. `cur` is the part that is read.
unfoldable pub folders_from : Text → Text → List Text
folders_from cur [] = []
folders_from [] (c ∷ s) = folders_from (c ∷ []) s
folders_from (d ∷ cur) (c ∷ s) =
    let rest = folders_from (d ∷ cur ++ c ∷ []) s in if c == slash then (d ∷ cur) ∷ rest else rest

unfoldable pub folders_above : Text → List Text
unfolding folders_from
folders_above path = folders_from [] path

-- `path.mkdir(exist_ok=True)`: a file that has the name is an error.
unfoldable pub make_folder : Text → Disk → Outcome Disk
unfolding lookup insert
make_folder path disk = elim (lookup path disk.entries) [
  | none ↦ returns (record disk { entries = insert path folder disk.entries })
  | some folder ↦ returns disk
  | some (file _) ↦ raises os_error
]

-- What is done before a failure stays.
unfoldable pub make_folders : List Text → Disk → Outcome ⊤ × Disk
unfolding make_folder
make_folders [] disk = (returns tt, disk)
make_folders (path ∷ paths) disk = elim (make_folder path disk) [
  | raises e ↦ (raises e, disk)
  | returns next ↦ make_folders paths next
]

-- A text that UTF-8 can encode has no lone surrogate.
abbrev pub encodable : Text → Bool
encodable content = all (λ c. not (within 0xD800 0xDFFF c)) content

-- `path.write_text(content)`: the folder of the path has to be there, which it is for the calls of
-- the code. Text that cannot be encoded is a `UnicodeEncodeError`, a `ValueError`, once the file has
-- been opened, which makes it empty.
unfoldable pub write_text : Text → Text → Disk → Outcome ⊤ × Disk
unfolding lookup insert
write_text path content disk = elim (lookup path disk.entries) [
  | some folder ↦ (raises os_error, disk)
  | _ ↦
      if encodable content
      then (returns tt, record disk { entries = insert path (file content) disk.entries })
      else (raises value_error, record disk { entries = insert path (file []) disk.entries })
]

-- Text mode reads a carriage return, alone or before a line feed, as a line feed.
unfoldable pub universal_newlines : Text → Text
universal_newlines [] = []
universal_newlines (c ∷ []) = (if c == 13 then 10 else c) ∷ []
universal_newlines (c ∷ d ∷ s) =
    let rest = universal_newlines (d ∷ s) in
    if c == 13 then (if d == 10 then rest else 10 ∷ rest) else c ∷ rest

-- `path.read_text()`
unfoldable pub read_text : Text → Disk → Outcome Text
unfolding lookup universal_newlines
read_text path disk = elim (lookup path disk.entries) [
  | some (file content) ↦ returns (universal_newlines content)
  | _ ↦ raises os_error
]
