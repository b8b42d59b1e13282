-- ===== src/Base/Text/Decimal.antt =====
-- `\d` and `int` on the decimal digits of Unicode.
use Prim.Native.Nat.{ℕ, ◌+◌, ◌*◌}
use mathlib.Core.Bool.{Bool}
use mathlib.Core.List.{List, [], ◌∷◌}
use mathlib.Core.Option.{Option}
use agentic_temporal_wf.Base.Tests.{is_some, get_or}

-- The value of a character that is a decimal digit.
abbrev pub Decimal : Type 0
Decimal = ℕ → Option ℕ

abbrev pub is_decimal : Decimal → ℕ → Bool
is_decimal value c = is_some (value c)

-- `int(s)` on a run of digits.
unfoldable pub int_of_digits : Decimal → ℕ → List ℕ → ℕ
int_of_digits value acc [] = acc
int_of_digits value acc (c ∷ s) = int_of_digits value (acc * 10 + get_or (value c) 0) s
