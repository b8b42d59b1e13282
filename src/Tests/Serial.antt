-- ===== src/Tests/Serial.antt =====
-- A way to write JSON values as letters, and to read them back: it stands for `json` at concrete
-- inputs. A number is written as so many letters `a` before a `b`, and `c` ends a sequence.
pub mod Read
pub mod Letters
use agentic_temporal_wf.Base.{
  ℕ, zero, suc, ◌+◌, ◌*◌, ◌≤◌, ltb, not, Bool, true, false, Option, none, some, [], ◌∷◌, ◌≡◌, refl,
  ap, ◌∙◌, arith, length, all, if◌then◌else◌, ◌==◌, nat_eq, ℕ_discrete,
}
use agentic_temporal_wf.Base.Text.{Text, nonempty}
use agentic_temporal_wf.Base.Json.{
  Json, Items, Fields, nil, cons, null, boolean, number, string, array, object, end, field,
}

unfoldable pub put_nat : ℕ → Text → Text
put_nat zero rest = 98 ∷ rest
put_nat (suc n) rest = 97 ∷ put_nat n rest

unfoldable pub put_text : Text → Text → Text
unfolding put_nat
put_text [] rest = 99 ∷ rest
put_text (c ∷ t) rest = put_nat c (put_text t rest)

unfoldable mutual
  unfolding put_nat put_text

  pub put : Json → Text → Text
  put null rest = put_nat 0 rest
  put (boolean false) rest = put_nat 1 rest
  put (boolean true) rest = put_nat 2 rest
  put (number n) rest = put_nat 3 (put_nat n rest)
  put (string t) rest = put_nat 4 (put_text t rest)
  put (array xs) rest = put_nat 5 (put_items xs rest)
  put (object fs) rest = put_nat 6 (put_fields fs rest)

  pub put_items : Items → Text → Text
  put_items nil rest = 99 ∷ rest
  put_items (cons x xs) rest = put x (put_items xs rest)

  pub put_fields : Fields → Text → Text
  put_fields end rest = 99 ∷ rest
  put_fields (field k v fs) rest = 98 ∷ put_text k (put v (put_fields fs rest))

unfoldable pub take_nat : Text → Option (ℕ × Text)
take_nat [] = none
take_nat (c ∷ s) =
    let more : Option (ℕ × Text) = elim (take_nat s) [
      | none ↦ none
      | some (n, r) ↦ some (suc n, r)
    ] in
    if c == 97 then more else some (0, s)

unfoldable pub take_text : ℕ → Text → Option (Text × Text)
unfolding take_nat
take_text zero s = none
take_text (suc f) [] = none
take_text (suc f) (c ∷ s) =
    let more : Option (Text × Text) = elim (take_nat (c ∷ s)) [
      | none ↦ none
      | some (n, r) ↦ elim (take_text f r) [ none ↦ none | some (t, q) ↦ some (n ∷ t, q) ]
    ] in
    if c == 99 then some ([], s) else more

abbrev pub with_rest {ℓ κ} :
    {A : Type ℓ} {B : Type κ} → (A → B) → Option (A × Text) → Option (B × Text)
with_rest f none = none
with_rest f (some (a, r)) = some (f a, r)

unfoldable mutual
  unfolding take_nat take_text

  pub take_value : ℕ → Text → Option (Json × Text)
  take_value zero s = none
  take_value (suc f) s = elim (take_nat s) [ none ↦ none | some (tag, r) ↦ take_tagged f tag r ]

  pub take_tagged : ℕ → ℕ → Text → Option (Json × Text)
  take_tagged zero tag r = none
  take_tagged (suc f) zero r = some (null, r)
  take_tagged (suc f) (suc zero) r = some (boolean false, r)
  take_tagged (suc f) (suc (suc zero)) r = some (boolean true, r)
  take_tagged (suc f) (suc (suc (suc zero))) r = with_rest number (take_nat r)
  take_tagged (suc f) (suc (suc (suc (suc zero)))) r = with_rest string (take_text f r)
  take_tagged (suc f) (suc (suc (suc (suc (suc zero))))) r = with_rest array (take_items f r)
  take_tagged (suc f) (suc (suc (suc (suc (suc (suc n)))))) r = with_rest object (take_fields f r)

  pub take_items : ℕ → Text → Option (Items × Text)
  take_items zero s = none
  take_items (suc f) [] = none
  take_items (suc f) (c ∷ s) =
      let more : Option (Items × Text) = elim (take_value f (c ∷ s)) [
        | none ↦ none
        | some (x, r) ↦ with_rest (cons x) (take_items f r)
      ] in
      if c == 99 then some (nil, s) else more

  pub take_fields : ℕ → Text → Option (Fields × Text)
  take_fields zero s = none
  take_fields (suc f) [] = none
  take_fields (suc f) (c ∷ s) =
      let more : Option (Fields × Text) = elim (take_text f s) [
        | none ↦ none
        | some (k, r) ↦ elim (take_value f r) [
          | none ↦ none
          | some (v, q) ↦ with_rest (field k v) (take_fields f q)
        ]
      ] in
      if c == 99 then some (end, s) else more

unfoldable pub dumps : Json → Text
unfolding put
dumps v = put v []

unfoldable pub loads : Text → Option Json
unfolding take_value
loads s = elim (take_value (3 * length s) s) [ none ↦ none | some (v, _) ↦ some v ]
