-- ===== src/Base/Equality.antt =====
-- Python's `==` and `in`, for every type whose equality can be decided.
use Prim.Native.Nat.{ℕ}
use mathlib.Core.Bool.{Bool, true, false, ◌||◌}
use mathlib.Core.List.{List, [], ◌∷◌, nil≢cons, cons≢nil, head-eq_of_cons-eq, tail-eq_of_cons-eq}
use mathlib.Core.Path.{refl, ap₂}
use mathlib.Core.Logic.{ite}
use native.Mathlib.Decide.{ℕ_discrete}

pub record Eq {ℓ} (A : Type ℓ) : Type ℓ where
  pub dec : Discrete A

module _ {ℓ} {A : Type ℓ} ⦃e : Eq A⦄ where
  infix 50 ◌==◌
  abbrev pub ◌==◌ : A → A → Bool
  a == b = ite (e.dec a b) true false

  -- `a in xs`, for a list or a set.
  abbrev pub contains : List A → A → Bool
  contains [] a = false
  contains (x ∷ xs) a = a == x || contains xs a

instance abbrev pub nat_eq : Eq ℕ
nat_eq = record { dec = ℕ_discrete }

list_dec {ℓ} : {A : Type ℓ} → Discrete A → Discrete (List A)
list_dec dec [] [] = yes refl
list_dec dec [] (b ∷ bs) = no nil≢cons
list_dec dec (a ∷ as') [] = no cons≢nil
list_dec dec (a ∷ as') (b ∷ bs) = elim (dec a b) [
  | no h ↦ no (λ p. h (head-eq_of_cons-eq p))
  | yes p ↦ elim (list_dec dec as' bs) [
    | no h ↦ no (λ q. h (tail-eq_of_cons-eq q))
    | yes q ↦ yes (ap₂ ◌∷◌ p q)
  ]
]

-- Shut in proofs, where a split on `s == t` yields the equation or its negation.
instance unfoldable pub text_eq : Eq (List ℕ)
unfolding list_dec ℕ_discrete
text_eq = record { dec = list_dec ℕ_discrete }
