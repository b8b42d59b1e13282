-- ===== src/Base/Regex.antt =====
-- The parts of Python's `re` that the patterns of the code use. A matcher takes the text that is
-- left and what to do after it, and backtracks as `re` does: it tries its own choices in order
-- and keeps the first with which the rest of the pattern matches.
pub mod Laws
use mathlib.Core.List.{reverse}
use agentic_temporal_wf.Base.Text.{Text, lower_code}
use agentic_temporal_wf.Base.Equality.{◌==◌, nat_eq}
use agentic_temporal_wf.Base.Tests.{ltb, if◌then◌else◌, or_else}
use agentic_temporal_wf.Base.Lists.{length}
use Prim.Native.Nat.{ℕ, zero, suc, ◌+◌, ◌-◌}
use mathlib.Core.Bool.{Bool, true, false, ◌&&◌, ◌||◌}
use mathlib.Core.List.{List, [], ◌∷◌, ◌++◌}
use mathlib.Core.Option.{Option, none, some}

module _ {ℓ} {R : Type ℓ} where
  -- `p{lo,hi}` for a class of characters, greedy. `acc` is what it has taken so far.
  unfoldable pub repeat : (ℕ → Bool) → ℕ → ℕ → Text → Text → (Text → Text → Option R) → Option R
  repeat p lo hi acc [] k = if lo == 0 then k acc [] else none
  repeat p lo hi acc (c ∷ s) k =
      or_else (if p c && ltb 0 hi then repeat p (lo - 1) (hi - 1) (acc ++ c ∷ []) s k else none)
        (if lo == 0 then k acc (c ∷ s) else none)

  -- `p*` and `p+`: no more than the whole text is taken.
  unfoldable pub star : (ℕ → Bool) → Text → (Text → Text → Option R) → Option R
  unfolding repeat
  star p s k = repeat p 0 (length s) [] s k

  unfoldable pub plus : (ℕ → Bool) → Text → (Text → Text → Option R) → Option R
  unfolding repeat
  plus p s k = repeat p 1 (length s) [] s k

  -- A literal text, where `same c d` says that the pattern's `c` matches the text's `d`.
  unfoldable pub literal : (ℕ → ℕ → Bool) → Text → Text → (Text → Option R) → Option R
  literal same [] s k = k s
  literal same (c ∷ p) [] k = none
  literal same (c ∷ p) (d ∷ s) k = if same c d then literal same p s k else none

  -- `$`: the end of the text, or the line feed that ends it.
  unfoldable pub at_end : Text → Option R → Option R
  at_end [] r = r
  at_end (c ∷ []) r = if c == 10 then r else none
  at_end (_ ∷ _ ∷ _) r = none

  -- `re.search`: the first position at which the pattern matches.
  unfoldable pub search_from : (Text → Option R) → Text → Option R
  search_from m [] = m []
  search_from m (c ∷ s) = or_else (m (c ∷ s)) (search_from m s)

-- A letter under `re.IGNORECASE`; `i` has two more partners among the characters.
unfoldable pub same_letter : ℕ → ℕ → Bool
same_letter c d = c == lower_code d || c == b'i' && (d == 0x130 || d == 0x131)

unfoldable pub same : ℕ → ℕ → Bool
same c d = c == d

-- `.`: any character but the line feed.
unfoldable pub dot : ℕ → Bool
dot c = if c == 10 then false else true
