-- ===== src/Base/Json.antt =====
-- Values that `json.loads` gives, and the operations of Python that the code applies to them.
-- A number is a natural number: the code reads pull request numbers, identifiers and counts.
pub mod Distinct
use Prim.Native.Nat.{ℕ}
use mathlib.Core.Path.{◌≡◌, refl}
use mathlib.Core.Bool.{Bool, true, false, ◌||◌}
use mathlib.Core.Option.{Option, none, some}
use agentic_temporal_wf.Base.Tests.{if◌then◌else◌, is_some}
use agentic_temporal_wf.Base.Equality.{◌==◌, text_eq, nat_eq}
use agentic_temporal_wf.Base.Exceptions.{
  Outcome, returns, raises, key_error, type_error, attribute_error, index_error,
}
use mathlib.Core.List.{[], ◌∷◌}
use agentic_temporal_wf.Base.Text.{Text, codes, show, has_infix}

mutual
  pub data Json : Type 0 where
    null : Json
    boolean : Bool → Json
    number : ℕ → Json
    string : Text → Json
    array : Items → Json
    object : Fields → Json

  pub data Items : Type 0 where
    nil : Items
    cons : Json → Items → Items

  pub data Fields : Type 0 where
    end : Fields
    field : Text → Json → Fields → Fields

unfoldable pub find_field : Text → Fields → Option Json
find_field k end = none
find_field k (field j v fs) = if k == j then some v else find_field k fs

-- `bool(v)`
unfoldable pub truthy : Json → Bool
truthy null = false
truthy (boolean b) = b
truthy (number n) = if n == 0 then false else true
truthy (string []) = false
truthy (string (_ ∷ _)) = true
truthy (array nil) = false
truthy (array (cons _ _)) = true
truthy (object end) = false
truthy (object (field _ _ _)) = true

-- `v.get(k)`: only a dict has the method.
unfoldable pub get : Json → Text → Outcome (Option Json)
unfolding find_field
get (object fs) k = returns (find_field k fs)
get _ k = raises attribute_error

-- `v[k]` for a text `k`.
unfoldable pub index : Json → Text → Outcome Json
unfolding find_field
index (object fs) k = elim (find_field k fs) [ none ↦ raises key_error | some v ↦ returns v ]
index _ k = raises type_error

-- `v[0]` for what `v.get(...) or []` gave.
unfoldable pub first : Json → Outcome Json
first (array nil) = raises index_error
first (array (cons v _)) = returns v
first (string []) = raises index_error
first (string (c ∷ _)) = returns (string (c ∷ []))
first (object _) = raises key_error
first _ = raises type_error

-- `k in v` for a text `k`: a key of a dict, an element of a list, a part of a text.
has_item : Text → Items → Bool
has_item k nil = false
has_item k (cons (string s) xs) = k == s || has_item k xs
has_item k (cons _ xs) = has_item k xs

unfoldable pub has_key : Json → Text → Outcome Bool
unfolding find_field has_item
has_key (object fs) k = returns (is_some (find_field k fs))
has_key (array xs) k = returns (has_item k xs)
has_key (string s) k = returns (has_infix s k)
has_key _ k = raises type_error

-- `v or {}`, and `v or {}` for a missing value.
unfoldable pub or_empty : Option Json → Json
unfolding truthy
or_empty none = object end
or_empty (some v) = if truthy v then v else object end

-- `str(v)`, as an f-string writes it; `repr` is the text of a list or a dict.
unfoldable pub format : (Json → Text) → Json → Text
format repr null = codes "None"
format repr (boolean true) = codes "True"
format repr (boolean false) = codes "False"
format repr (number n) = show n
format repr (string s) = s
format repr v = repr v

pub or_empty-object : (fs : Fields) → or_empty (some (object fs)) ≡ object fs
unfolding or_empty
or_empty-object end = refl
or_empty-object (field k v fs) = refl
