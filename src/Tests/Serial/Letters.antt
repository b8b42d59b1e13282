-- ===== src/Tests/Serial/Letters.antt =====
-- The letters that are written.
use agentic_temporal_wf.Base.{
  ℕ, zero, suc, ltb, not, Bool, true, false, [], ◌∷◌, ◌≡◌, refl, arith, all, ◌==◌, nat_eq,
  ℕ_discrete,
}
use agentic_temporal_wf.Base.Text.{Text, nonempty}
use agentic_temporal_wf.Base.Json.{
  Json, Items, Fields, nil, cons, null, boolean, number, string, array, object, end, field,
}
use agentic_temporal_wf.Tests.Serial.{put_nat, put_text, put, put_items, put_fields, dumps}
use agentic_temporal_wf.Tests.Serial.Read.{starts_low, put-low}

module _ (p : ℕ → Bool) (a : p 97 ≡ true) (b : p 98 ≡ true) (c : p 99 ≡ true) where
  letters-put_nat : (n : ℕ) (rest : Text) → all p rest ≡ true → all p (put_nat n rest) ≡ true
  unfolding put_nat
  letters-put_nat zero rest h = ground arith
  letters-put_nat (suc n) rest h = ground (arith, letters-put_nat n rest h)

  letters-put_text : (t rest : Text) → all p rest ≡ true → all p (put_text t rest) ≡ true
  unfolding put_text
  letters-put_text [] rest h = ground arith
  letters-put_text (d ∷ t) rest h = letters-put_nat d (put_text t rest) (letters-put_text t rest h)

  mutual
    unfolding put put_items put_fields

    pub letters-put : (v : Json) (rest : Text) → all p rest ≡ true → all p (put v rest) ≡ true
    letters-put null rest h = letters-put_nat 0 rest h
    letters-put (boolean false) rest h = letters-put_nat 1 rest h
    letters-put (boolean true) rest h = letters-put_nat 2 rest h
    letters-put (number n) rest h = letters-put_nat 3 (put_nat n rest) (letters-put_nat n rest h)
    letters-put (string t) rest h = letters-put_nat 4 (put_text t rest) (letters-put_text t rest h)
    letters-put (array xs) rest h =
        letters-put_nat 5 (put_items xs rest) (letters-put_items xs rest h)
    letters-put (object fs) rest h =
        letters-put_nat 6 (put_fields fs rest) (letters-put_fields fs rest h)

    pub letters-put_items :
        (xs : Items) (rest : Text) → all p rest ≡ true → all p (put_items xs rest) ≡ true
    letters-put_items nil rest h = ground arith
    letters-put_items (cons x xs) rest h =
        letters-put x (put_items xs rest) (letters-put_items xs rest h)

    pub letters-put_fields :
        (fs : Fields) (rest : Text) → all p rest ≡ true → all p (put_fields fs rest) ≡ true
    letters-put_fields end rest h = ground arith
    letters-put_fields (field k v fs) rest h =
        let rest_ =
          letters-put_text k (put v (put_fields fs rest))
            (letters-put v (put_fields fs rest) (letters-put_fields fs rest h)) in
        ground (arith, rest_)

pub dumps-one_line : (v : Json) → all (λ c. not (c == 10)) (dumps v) ≡ true
unfolding dumps ℕ_discrete
dumps-one_line v = letters-put (λ c. not (c == 10)) refl refl refl v [] refl

pub dumps-ascii : (v : Json) → all (λ c. ltb c 128) (dumps v) ≡ true
unfolding dumps
dumps-ascii v = letters-put (λ c. ltb c 128) refl refl refl v [] refl

pub dumps-nonempty : (v : Json) → nonempty (dumps v) ≡ true
unfolding dumps
dumps-nonempty v = low-nonempty (put v []) (put-low v [])
  where
    low-nonempty : (s : Text) → starts_low s ≡ true → nonempty s ≡ true
    low-nonempty [] h = cc
    low-nonempty (c ∷ s) h = refl
