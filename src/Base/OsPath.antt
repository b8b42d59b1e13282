-- ===== src/Base/OsPath.antt =====
-- Python's `os.path` on POSIX: the functions that the code calls on path names.
pub mod Laws
use Prim.Native.Nat.{ℕ}
use mathlib.Core.Bool.{Bool, true, false, not, ◌&&◌, ◌||◌}
use mathlib.Core.List.{List, [], ◌∷◌, ◌++◌}
use agentic_temporal_wf.Base.Tests.{if◌then◌else◌}
use agentic_temporal_wf.Base.Equality.{◌==◌, nat_eq, text_eq}
use agentic_temporal_wf.Base.Text.{Text, codes, split, join, starts_with, nonempty, text_or}

abbrev pub slash : ℕ
slash = b'/'

abbrev pub up : Text
up = codes ".."

-- A component that `normpath` leaves out.
abbrev pub skipped : Text → Bool
skipped comp = not (nonempty comp) || comp == codes "."

-- `new_comps.pop()`
unfoldable pub pop : List Text → List Text
pop [] = []
pop (x ∷ []) = []
pop (x ∷ y ∷ xs) = x ∷ pop (y ∷ xs)

-- `new_comps[-1] == ".."`
unfoldable pub ends_up : List Text → Bool
ends_up [] = false
ends_up (x ∷ []) = x == up
ends_up (x ∷ y ∷ xs) = ends_up (y ∷ xs)

abbrev pub no_comps : List Text → Bool
no_comps [] = true
no_comps (_ ∷ _) = false

-- A round of the loop of `normpath`; `rooted` says that the path starts with a slash.
unfoldable pub visit : Bool → List Text → Text → List Text
visit rooted comps comp =
    if skipped comp
    then comps
    else if not (comp == up) || (not rooted && no_comps comps) || ends_up comps
    then comps ++ comp ∷ []
    else pop comps

unfoldable pub resolve : Bool → List Text → List Text → List Text
resolve rooted comps [] = comps
resolve rooted comps (comp ∷ rest) = resolve rooted (visit rooted comps comp) rest

-- Two slashes at the start stay two, and three or more become one.
unfoldable pub leading : Text → Text
leading p =
    if starts_with p (codes "///")
    then codes "/"
    else if starts_with p (codes "//")
    then codes "//"
    else if starts_with p (codes "/")
    then codes "/"
    else []

-- `os.path.normpath`
unfoldable pub normpath : Text → Text
unfolding resolve leading split join visit pop ends_up starts_with
normpath p =
    let start = leading p in
    text_or (start ++ join (codes "/") (resolve (nonempty start) [] (split slash p))) (codes ".")

unfoldable pub ends_with_slash : Text → Bool
ends_with_slash [] = false
ends_with_slash (c ∷ []) = c == slash
ends_with_slash (c ∷ d ∷ s) = ends_with_slash (d ∷ s)

-- `os.path.join(a, b)`
unfoldable pub join_path : Text → Text → Text
unfolding ends_with_slash starts_with
join_path a b =
    if starts_with b (codes "/")
    then b
    else if not (nonempty a) || ends_with_slash a
    then a ++ b
    else a ++ codes "/" ++ b

-- `os.path.abspath`, where `cwd` is the working directory of the process.
unfoldable pub abspath : Text → Text → Text
unfolding normpath join_path
abspath cwd p = normpath (if starts_with p (codes "/") then p else join_path cwd p)
