-- ===== src/Prelude/Io.antt =====
-- `io::Result`, by the kind of the error.
use mathlib.Core.Path.{◌≡◌, refl}
use mathlib.Core.Logic.{◌⊎◌, inl, inr}

pub data ErrorKind : Type 0 where
  not_found invalid_data other_error : ErrorKind

pub data Result {ℓ} (A : Type ℓ) : Type ℓ where
  ok : A → Result A
  err : ErrorKind → Result A

infixl 5 ◌>>=◌
abbrev pub ◌>>=◌ {ℓ κ} : {A : Type ℓ} {B : Type κ} → Result A → (A → Result B) → Result B
ok a >>= f = f a
err e >>= f = err e

-- `io::Result<()>`
abbrev pub Outcome : Type 0
Outcome = Result {0} Unit

pub Result-cases {ℓ} :
    {A : Type ℓ} (r : Result A) → ((a : A) × (r ≡ ok a)) ⊎ ((k : ErrorKind) × (r ≡ err k))
Result-cases (ok a) = inl (a, refl)
Result-cases (err k) = inr (k, refl)
