-- ===== src/Base/Text/Digits.antt =====
-- `str(n)` and `int(s)` of a natural number, and that one is the other's inverse.
use Prim.Native.Nat.{ℕ, zero, suc, ◌+◌, ◌-◌, ◌*◌, ◌/◌, ◌%◌, ◌<◌, ◌≤◌}
use mathlib.Core.Path.{◌≡◌, sym, ◌∙◌, ap}
use mathlib.Core.List.{List, [], ◌∷◌, ◌++◌, foldl, foldl-append}
use native.Mathlib.Omega.{arith}
use agentic_temporal_wf.Base.Tests.{ltb, leb, if◌then◌else◌}
use agentic_temporal_wf.Base.Lists.{all, all-append, length, length-append}
use mathlib.Core.Bool.{Bool, true, ◌&&◌}
use mathlib.Core.Path.{refl}

-- The decimal digits of `n`, with fuel above `n`.
show_from : ℕ → ℕ → List ℕ
show_from zero n = []
show_from (suc f) n =
    let front = show_from f (n / 10) in
    if ltb n 10 then (48 + n) ∷ [] else front ++ (48 + n % 10) ∷ []

unfoldable pub show : ℕ → List ℕ
unfolding show_from
show n = show_from (suc n) n

abbrev pub digit : ℕ → ℕ → ℕ
digit acc c = acc * 10 + (c - 48)

-- `int(s)` on digits.
unfoldable pub to_int : List ℕ → ℕ
to_int = foldl digit 0

to_int-show_from : (f n : ℕ) → n < f → to_int (show_from f n) ≡ n
unfolding show_from to_int
to_int-show_from zero n h = elim h [ ]
to_int-show_from (suc f) n h = grind (
  arith,
  to_int-show_from f (n / 10),
  foldl-append digit 0 (show_from f (n / 10)) ((48 + n % 10) ∷ []),
)

pub to_int-show : (n : ℕ) → to_int (show n) ≡ n
unfolding show
to_int-show n = to_int-show_from (suc n) n (omega arith)

-- Two numbers that are written alike are one.
pub show_injective : (m n : ℕ) → show m ≡ show n → m ≡ n
show_injective m n h = sym (to_int-show m) ∙ ap to_int h ∙ to_int-show n

abbrev pub ascii_digit : ℕ → Bool
ascii_digit c = leb 48 c && leb c 57

show_from-digits : (f n : ℕ) → all ascii_digit (show_from f n) ≡ true
unfolding show_from
show_from-digits zero n = refl
show_from-digits (suc f) n =
    let rec = show_from-digits f (n / 10) in
    ground (arith, rec, all-append ascii_digit (show_from f (n / 10)) ((48 + n % 10) ∷ []))

-- A number is written in ASCII digits, at least one.
pub show-digits : (n : ℕ) → all ascii_digit (show n) ≡ true
unfolding show
show-digits n = show_from-digits (suc n) n

pub show-length : (n : ℕ) → 1 ≤ length (show n)
unfolding show
show-length n = ground (arith, length-append (show_from n (n / 10)) ((48 + n % 10) ∷ []))
