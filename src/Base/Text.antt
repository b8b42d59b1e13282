-- ===== src/Base/Text.antt =====
-- Python's `str` as the list of its code points, and the methods that the code calls on it.
mod Digits
pub mod Lines
pub mod Decimal
unfoldable pub use Digits.*
use Prim.Native.Char.{code}
use Prim.Native.Nat.{ℕ, ◌+◌}
use Prim.Native.String.{String}
use mathlib.Core.Path.{◌≡◌, refl}
use mathlib.Core.Logic.{inl, inr}
use mathlib.Core.Bool.{Bool, true, false, ◌&&◌, ◌||◌}
use mathlib.Core.List.{List, [], ◌∷◌, ◌++◌, reverse}
use mathlib.Core.Option.{Option, none, some}
use native.Mathlib.Omega.{arith}
use agentic_temporal_wf.Base.Tests.{Bool-cases, Option-cases, ltb, leb, if◌then◌else◌, or_else}
use agentic_temporal_wf.Base.Equality.{◌==◌, nat_eq}
use agentic_temporal_wf.Base.Lists.{length, drop}

abbrev pub Text : Type 0
Text = List ℕ

-- The code points of a literal.
abbrev pub codes : String → Text
codes String.[] = []
codes (String.◌∷◌ c s) = code c ∷ codes s

abbrev pub within : ℕ → ℕ → ℕ → Bool
within lo hi c = leb lo c && leb c hi

-- `str.isspace`, which is also the class `\s` of a pattern on text.
unfoldable pub is_space : ℕ → Bool
is_space c =
    within 9 13 c
    || within 28 32 c
    || c == 0x85
    || c == 0xa0
    || c == 0x1680
    || within 0x2000 0x200a c
    || within 0x2028 0x2029 c
    || c == 0x202f
    || c == 0x205f
    || c == 0x3000

-- `s.lstrip()`
unfoldable pub lstrip : Text → Text
lstrip [] = []
lstrip (c ∷ s) = let rest = lstrip s in if is_space c then rest else c ∷ s

-- `s.rstrip()`
unfoldable pub rstrip : Text → Text
rstrip [] = []
rstrip (c ∷ s) = elim (rstrip s) [ [] ↦ (if is_space c then [] else c ∷ []) | d ∷ t ↦ c ∷ d ∷ t ]

-- `s.strip()`
unfoldable pub strip : Text → Text
unfolding lstrip rstrip is_space
strip s = rstrip (lstrip s)

-- `s.split(sep)` for a separator of one character.
unfoldable pub split_from : ℕ → Text → Text → List Text
split_from sep cur [] = cur ∷ []
split_from sep cur (c ∷ s) =
    let closed = cur ∷ split_from sep [] s in
    let longer = split_from sep (cur ++ c ∷ []) s in if c == sep then closed else longer

unfoldable pub split : ℕ → Text → List Text
unfolding split_from
split sep s = split_from sep [] s

-- `s.split(sep, 1)` into two parts; `none` where the separator is missing.
unfoldable pub split_once : ℕ → Text → Option (Text × Text)
split_once sep [] = none
split_once sep (c ∷ s) =
    let rest = split_once sep s in
    if c == sep then some ([], s) else elim rest [ none ↦ none | some (a, b) ↦ some (c ∷ a, b) ]

-- `s.startswith(p)`
unfoldable pub starts_with : Text → Text → Bool
starts_with s [] = true
starts_with [] (_ ∷ _) = false
starts_with (c ∷ s) (d ∷ p) = c == d && starts_with s p

-- `s.removeprefix(p)`
unfoldable pub remove_prefix : Text → Text → Text
unfolding starts_with
remove_prefix s p = if starts_with s p then drop (length p) s else s

-- `p in s`
unfoldable pub has_infix : Text → Text → Bool
unfolding starts_with
has_infix [] p = starts_with [] p
has_infix (c ∷ s) p = starts_with (c ∷ s) p || has_infix s p

-- `sep.join(parts)`
unfoldable pub join : Text → List Text → Text
join sep [] = []
join sep (x ∷ []) = x
join sep (x ∷ y ∷ xs) = x ++ (sep ++ join sep (y ∷ xs))

-- `s.lower()` on ASCII letters; any other character is left as it is.
abbrev pub lower_code : ℕ → ℕ
lower_code c = if within b'A' b'Z' c then c + 32 else c

unfoldable pub lower : Text → Text
lower [] = []
lower (c ∷ s) = lower_code c ∷ lower s

-- An empty text is false.
abbrev pub nonempty : Text → Bool
nonempty [] = false
nonempty (_ ∷ _) = true

-- `s or t`, `s or None`
abbrev pub text_or : Text → Text → Text
text_or [] t = t
text_or (c ∷ s) t = c ∷ s

pub starts_with-append : (p s : Text) → starts_with (p ++ s) p ≡ true
unfolding starts_with
starts_with-append [] [] = refl
starts_with-append [] (_ ∷ _) = refl
starts_with-append (c ∷ p) s = ground (arith, starts_with-append p s)

pub has_infix_of_prefix : (s p : Text) → starts_with s p ≡ true → has_infix s p ≡ true
unfolding has_infix
has_infix_of_prefix [] p h = h
has_infix_of_prefix (c ∷ s) p h = ground arith

pub has_infix-append : (s p t : Text) → has_infix (s ++ (p ++ t)) p ≡ true
unfolding has_infix
has_infix-append [] p t = has_infix_of_prefix (p ++ t) p (starts_with-append p t)
has_infix-append (c ∷ s) p t = ground (arith, has_infix-append s p t)

pub split_once-append :
    (sep : ℕ) (s : Text) {a b : Text} → split_once sep s ≡ some (a, b) → s ≡ a ++ sep ∷ b
unfolding split_once
split_once-append sep [] h = cc
split_once-append sep (c ∷ s) h = elim (Bool-cases (c == sep)) [
  | inl here ↦ ground arith
  | inr further ↦ elim (Option-cases (split_once sep s)) [
    | inl missing ↦ ground (arith, missing)
    | inr ((a', b'), found) ↦
        let rest = split_once-append sep s {a = a'} {b = b'} found in ground (arith, found, rest)
  ]
]
