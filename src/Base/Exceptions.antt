-- ===== src/Base/Exceptions.antt =====
-- Python's exceptions as values: a call returns, or raises.
use mathlib.Core.Path.{◌≡◌, refl}
use mathlib.Core.Logic.{◌⊎◌, inl, inr}

-- The statuses that the code raises: 400, 401, 403, 404 and 503.
pub data HttpStatus : Type 0 where
  bad_request unauthorized forbidden not_found service_unavailable : HttpStatus

-- The exceptions that the code raises, or that the standard library raises in it.
pub data Exception : Type 0 where
  key_error index_error type_error value_error attribute_error : Exception
  repo_denied : Exception
  validation_error called_process_error runtime_error lookup_error timeout_error : Exception
  -- A call of the operating system that failed.
  os_error : Exception
  -- An HTTP call that failed, or `raise_for_status`.
  http_error : Exception
  -- An activity that failed after its last attempt.
  activity_error : Exception
  -- FastAPI's `HTTPException`, with its status.
  http_exception : HttpStatus → Exception

pub data Outcome {ℓ} (A : Type ℓ) : Type ℓ where
  returns : A → Outcome A
  raises : Exception → Outcome A

infixl 5 ◌>>=◌ ◌>>◌
abbrev pub ◌>>=◌ {ℓ κ} : {A : Type ℓ} {B : Type κ} → Outcome A → (A → Outcome B) → Outcome B
returns a >>= f = f a
raises e >>= f = raises e

abbrev pub ◌>>◌ {ℓ κ} : {A : Type ℓ} {B : Type κ} → Outcome A → Outcome B → Outcome B
m >> k = m >>= λ _. k

pub >>=-eq-returns {ℓ κ} :
    {A : Type ℓ} {B : Type κ} (m : Outcome A) (f : A → Outcome B) {b : B}
    → (m >>= f) ≡ returns b
    → (a : A) × (m ≡ returns a) × (f a ≡ returns b)
>>=-eq-returns (returns a) f h = (a, refl, h)
>>=-eq-returns (raises e) f h = cc

pub Outcome-cases {ℓ} :
    {A : Type ℓ} (m : Outcome A) → ((a : A) × (m ≡ returns a)) ⊎ ((e : Exception) × (m ≡ raises e))
Outcome-cases (returns a) = inl (a, refl)
Outcome-cases (raises e) = inr (e, refl)

-- What holds of the result, where there is one.
abbrev pub Ensures {ℓ κ} : {A : Type ℓ} → (A → Type κ) → Outcome A → Type κ
Ensures Q (returns a) = Q a
Ensures Q (raises e) = Unit

pub Ensures->>= {ℓ κ μ} :
    {A : Type ℓ} {B : Type κ} (Q : B → Type μ) (m : Outcome A) (f : A → Outcome B)
    → ((a : A) → m ≡ returns a → Ensures Q (f a))
    → Ensures Q (m >>= f)
Ensures->>= Q (returns a) f h = h a refl
Ensures->>= Q (raises e) f h = tt
