-- ===== src/Tests/Serial/Read.antt =====
-- What is written is read back.
use agentic_temporal_wf.Base.{
  ℕ, zero, suc, ◌+◌, ◌*◌, ◌≤◌, Bool, true, false, some, [], ◌∷◌, ◌≡◌, refl, ap, ◌∙◌, arith, length,
  if◌then◌else◌, ◌==◌, nat_eq, ℕ_discrete,
}
use agentic_temporal_wf.Base.Text.{Text}
use agentic_temporal_wf.Base.Json.{
  Json, Items, Fields, nil, cons, null, boolean, number, string, array, object, end, field,
}
use agentic_temporal_wf.Tests.Serial.{
  put_nat, put_text, put, put_items, put_fields, take_nat, take_text, with_rest, take_value,
  take_tagged, take_items, take_fields, dumps, loads,
}

take_nat-put_nat : (n : ℕ) (rest : Text) → take_nat (put_nat n rest) ≡ some (n, rest)
unfolding take_nat put_nat ℕ_discrete
take_nat-put_nat zero rest = refl
take_nat-put_nat (suc n) rest = rw (take_nat-put_nat n rest) refl

take_text-put_text :
    (f : ℕ) (t rest : Text) → length t + 1 ≤ f → take_text f (put_text t rest) ≡ some (t, rest)
unfolding put_text take_text ℕ_discrete
take_text-put_text zero t rest h = absurd (omega arith)
take_text-put_text (suc f) [] rest h = refl
take_text-put_text (suc f) (zero ∷ t) rest h = rw (take_text-put_text f t rest (omega arith)) refl
take_text-put_text (suc f) (suc n ∷ t) rest h =
    rw (take_nat-put_nat n (put_text t rest), take_text-put_text f t rest (omega arith)) refl

mutual
  pub size : Json → ℕ
  size null = 2
  size (boolean b) = 2
  size (number n) = 2
  size (string t) = length t + 3
  size (array xs) = size_items xs + 2
  size (object fs) = size_fields fs + 2

  pub size_items : Items → ℕ
  size_items nil = 1
  size_items (cons x xs) = size x + size_items xs + 1

  pub size_fields : Fields → ℕ
  size_fields end = 1
  size_fields (field k v fs) = length k + 1 + size v + size_fields fs + 1

abbrev pub starts_low : Text → Bool
starts_low [] = false
starts_low (c ∷ s) = if c == 99 then false else true

pub put-low : (v : Json) (rest : Text) → starts_low (put v rest) ≡ true
unfolding put ℕ_discrete
put-low null rest = refl
put-low (boolean false) rest = refl
put-low (boolean true) rest = refl
put-low (number n) rest = refl
put-low (string t) rest = refl
put-low (array xs) rest = refl
put-low (object fs) rest = refl

-- An item is read where one starts.
take_items-low :
    (f : ℕ) (s r : Text) (x : Json)
    → starts_low s ≡ true
    → take_value f s ≡ some (x, r)
    → take_items (suc f) s ≡ with_rest (cons x) (take_items f r)
unfolding take_items
take_items-low f [] r x low e = cc
take_items-low f (c ∷ s) r x low e =
    let other : (c == 99) ≡ false = ground arith in rw (take_items, other, e) refl

take_value-tag : (f n : ℕ) (s : Text) → take_value (suc f) (put_nat n s) ≡ take_tagged f n s
unfolding take_value
take_value-tag f n s = rw (take_value, take_nat-put_nat n s) refl

mutual
  unfolding put put_items put_fields take_tagged take_items take_fields size size_items size_fields
      ℕ_discrete

  take_value-put :
      (f : ℕ) (v : Json) (rest : Text) → size v ≤ f → take_value f (put v rest) ≡ some (v, rest)
  take_value-put zero null rest h = absurd (omega arith)
  take_value-put zero (boolean b) rest h = absurd (omega arith)
  take_value-put zero (number n) rest h = absurd (omega arith)
  take_value-put zero (string t) rest h = absurd (omega arith)
  take_value-put zero (array xs) rest h = absurd (omega arith)
  take_value-put zero (object fs) rest h = absurd (omega arith)
  take_value-put (suc zero) null rest h = absurd (omega arith)
  take_value-put (suc zero) (boolean b) rest h = absurd (omega arith)
  take_value-put (suc zero) (number n) rest h = absurd (omega arith)
  take_value-put (suc zero) (string t) rest h = absurd (omega arith)
  take_value-put (suc zero) (array xs) rest h = absurd (omega arith)
  take_value-put (suc zero) (object fs) rest h = absurd (omega arith)
  take_value-put (suc (suc f)) null rest h = take_value-tag (suc f) 0 rest
  take_value-put (suc (suc f)) (boolean false) rest h = take_value-tag (suc f) 1 rest
  take_value-put (suc (suc f)) (boolean true) rest h = take_value-tag (suc f) 2 rest
  take_value-put (suc (suc f)) (number n) rest h =
      take_value-tag (suc f) 3 (put_nat n rest) ∙ ap (with_rest number) (take_nat-put_nat n rest)
  take_value-put (suc (suc f)) (string t) rest h =
      take_value-tag (suc f) 4 (put_text t rest)
      ∙ ap (with_rest string) (take_text-put_text f t rest (omega arith))
  take_value-put (suc (suc f)) (array xs) rest h =
      take_value-tag (suc f) 5 (put_items xs rest)
      ∙ ap (with_rest array) (take_items-put f xs rest (omega arith))
  take_value-put (suc (suc f)) (object fs) rest h =
      take_value-tag (suc f) 6 (put_fields fs rest)
      ∙ ap (with_rest object) (take_fields-put f fs rest (omega arith))

  take_items-put :
      (f : ℕ) (xs : Items) (rest : Text)
      → size_items xs ≤ f
      → take_items f (put_items xs rest) ≡ some (xs, rest)
  take_items-put zero nil rest h = absurd (omega arith)
  take_items-put zero (cons x xs) rest h = absurd (omega arith)
  take_items-put (suc f) nil rest h = refl
  take_items-put (suc f) (cons x xs) rest h =
      take_items-low f (put x (put_items xs rest)) (put_items xs rest) x
        (put-low x (put_items xs rest)) (take_value-put f x (put_items xs rest) (omega arith))
      ∙ ap (with_rest (cons x)) (take_items-put f xs rest (omega arith))

  take_fields-put :
      (f : ℕ) (fs : Fields) (rest : Text)
      → size_fields fs ≤ f
      → take_fields f (put_fields fs rest) ≡ some (fs, rest)
  take_fields-put zero end rest h = absurd (omega arith)
  take_fields-put zero (field k v fs) rest h = absurd (omega arith)
  take_fields-put (suc f) end rest h = refl
  take_fields-put (suc f) (field k v fs) rest h =
      rw
        (
          take_text-put_text f k (put v (put_fields fs rest)) (omega arith),
          take_value-put f v (put_fields fs rest) (omega arith),
          take_fields-put f fs rest (omega arith),
        )
        refl

length-put_nat : (n : ℕ) (rest : Text) → length (put_nat n rest) ≡ n + 1 + length rest
unfolding put_nat
length-put_nat zero rest = omega arith
length-put_nat (suc n) rest = omega (arith, length-put_nat n rest)

length-put_text : (t rest : Text) → length t + 1 + length rest ≤ length (put_text t rest)
unfolding put_text
length-put_text [] rest = omega arith
length-put_text (c ∷ t) rest =
    omega (arith, length-put_nat c (put_text t rest), length-put_text t rest)

mutual
  unfolding put put_items put_fields size size_items size_fields

  size-put : (v : Json) (rest : Text) → size v + 1 + 3 * length rest ≤ 3 * length (put v rest)
  size-put null rest = omega (arith, length-put_nat 0 rest)
  size-put (boolean false) rest = omega (arith, length-put_nat 1 rest)
  size-put (boolean true) rest = omega (arith, length-put_nat 2 rest)
  size-put (number n) rest = omega (arith, length-put_nat 3 (put_nat n rest), length-put_nat n rest)
  size-put (string t) rest =
      omega (arith, length-put_nat 4 (put_text t rest), length-put_text t rest)
  size-put (array xs) rest =
      omega (arith, length-put_nat 5 (put_items xs rest), size_items-put xs rest)
  size-put (object fs) rest =
      omega (arith, length-put_nat 6 (put_fields fs rest), size_fields-put fs rest)

  size_items-put :
      (xs : Items) (rest : Text) → size_items xs + 3 * length rest ≤ 3 * length (put_items xs rest)
  size_items-put nil rest = omega arith
  size_items-put (cons x xs) rest =
      omega (arith, size-put x (put_items xs rest), size_items-put xs rest)

  size_fields-put :
      (fs : Fields) (rest : Text)
      → size_fields fs + 3 * length rest ≤ 3 * length (put_fields fs rest)
  size_fields-put end rest = omega arith
  size_fields-put (field k v fs) rest = omega (
    arith,
    length-put_text k (put v (put_fields fs rest)),
    size-put v (put_fields fs rest),
    size_fields-put fs rest,
  )

pub loads-dumps : (v : Json) → loads (dumps v) ≡ some v
unfolding loads dumps
loads-dumps v =
    let read = take_value-put (3 * length (put v [])) v [] (omega (arith, size-put v [])) in
    rw (loads, read) refl
