-- ===== src/Base/Text/Lines.antt =====
-- `str.splitlines`, and the order of texts.
use Prim.Native.Nat.{ℕ}
use mathlib.Core.Bool.{Bool, true, false, ◌&&◌, ◌||◌}
use mathlib.Core.List.{List, [], ◌∷◌, ◌++◌}
use agentic_temporal_wf.Base.Tests.{ltb, leb, if◌then◌else◌}
use agentic_temporal_wf.Base.Equality.{◌==◌, nat_eq}

-- A character that ends a line.
unfoldable pub is_break : ℕ → Bool
is_break c =
    (leb 10 c && leb c 13) || (leb 28 c && leb c 30) || c == 0x85 || c == 0x2028 || c == 0x2029

-- `cur` is the line that is read; `after_return` says that a carriage return ended the last one.
unfoldable pub lines_from : List ℕ → Bool → List ℕ → List (List ℕ)
lines_from [] after_return [] = []
lines_from (d ∷ cur) after_return [] = (d ∷ cur) ∷ []
lines_from cur after_return (c ∷ s) =
    let same_end = lines_from cur false s in
    let closed = cur ∷ lines_from [] (c == 13) s in
    let longer = lines_from (cur ++ c ∷ []) false s in
    if after_return && c == 10 then same_end else if is_break c then closed else longer

-- `s.splitlines()`
unfoldable pub splitlines : List ℕ → List (List ℕ)
unfolding lines_from is_break
splitlines s = lines_from [] false s

-- `(lines or [""])[-1]`
unfoldable pub last_or : List ℕ → List (List ℕ) → List ℕ
last_or d [] = d
last_or d (x ∷ xs) = last_or x xs

-- `a <= b` on texts, by code points.
unfoldable pub text_le : List ℕ → List ℕ → Bool
text_le [] b = true
text_le (c ∷ a) [] = false
text_le (c ∷ a) (d ∷ b) = ltb c d || (c == d && text_le a b)

insert_sorted : List ℕ → List (List ℕ) → List (List ℕ)
insert_sorted x [] = x ∷ []
insert_sorted x (y ∷ ys) = if text_le x y then x ∷ y ∷ ys else y ∷ insert_sorted x ys

-- `sorted(xs)`
unfoldable pub sorted : List (List ℕ) → List (List ℕ)
unfolding insert_sorted text_le
sorted [] = []
sorted (x ∷ xs) = insert_sorted x (sorted xs)
