-- ===== src/Base/Outcome.antt =====
-- Exceptions as values, and methods that mutate an object and may raise.
use Prim.Native.Nat.{ℕ}
use mathlib.Core.Path.{◌≡◌, refl}
use mathlib.Core.Logic.{◌⊎◌, inl, inr}

-- The exceptions that the modelled code raises. `zmq_error` carries its errno.
pub data Error : Type 0 where
  key_error index_error value_error type_error runtime_error os_error : Error
  attribute_error not_implemented version_error not_done bind_error cancelled struct_error
        overflow_error :
      Error
  zmq_error : ℕ → Error

pub data Result {ℓ} (A : Type ℓ) : Type ℓ where
  ok : A → Result A
  err : Error → Result A

infixl 5 ◌>>=◌
abbrev pub ◌>>=◌ {ℓ κ} : {A : Type ℓ} {B : Type κ} → Result A → (A → Result B) → Result B
ok a >>= f = f a
err e >>= f = err e

-- What a chain that succeeded went through: the first value, and the equations of both steps.
abbrev pub Through {ℓ κ} : {A : Type ℓ} {B : Type κ} → (A → Result B) → B → Result A → Type (ℓ ⊔ κ)
Through {A = A} f b m = (a : A) × (m ≡ ok a) × (f a ≡ ok b)

pub through {ℓ κ} :
    {A : Type ℓ} {B : Type κ} {b : B} (f : A → Result B) (m : Result A)
    → (m >>= f) ≡ ok b
    → Through f b m
through f (err e) chain = cc
through f (ok first) chain = (first, refl, chain)

pub ok_injective {ℓ} : {A : Type ℓ} {a b : A} → ok a ≡ ok b → a ≡ b
ok_injective h = cc

pub Result-cases {ℓ} :
    {A : Type ℓ} (r : Result A) → ((a : A) × (r ≡ ok a)) ⊎ ((e : Error) × (r ≡ err e))
Result-cases (ok a) = inl (a, refl)
Result-cases (err e) = inr (e, refl)
