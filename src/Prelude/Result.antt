-- ===== src/Prelude/Result.antt =====
-- A transaction or a check that may throw: `err` holds the error's message, and the caller keeps
-- the state that it had (a rollback).
use mathlib.Core.Path.{◌≡◌, refl}
use mathlib.Core.Logic.{◌⊎◌, inl, inr}
use mathlib.Core.Bool.{Bool, true, false}
use mathlib.Core.Option.{Option, none, some}

pub data Result {ℓ κ} (E : Type ℓ) (A : Type κ) : Type (ℓ ⊔ κ) where
  ok : A → Result E A
  err : E → Result E A

infixl 5 ◌>>=◌ ◌>>◌
abbrev pub ◌>>=◌ {ℓ κ} :
    {E : Type 0} {A : Type ℓ} {B : Type κ} → Result E A → (A → Result E B) → Result E B
ok a >>= f = f a
err e >>= f = err e

abbrev pub ◌>>◌ {ℓ} : {E : Type 0} {B : Type ℓ} → Result E (Unit {0}) → Result E B → Result E B
m >> k = m >>= λ _. k

-- `if (!test) throw new Error(e)`
abbrev pub guard : {E : Type 0} → Bool → E → Result E (Unit {0})
guard true e = ok tt
guard false e = err e

-- `if (!row) throw new Error(e)`
abbrev pub require {ℓ} : {E : Type 0} {A : Type ℓ} → Option A → E → Result E A
require none e = err e
require (some a) e = ok a

-- To split on a result and keep the equation.
pub Result-cases {ℓ} :
    {E : Type 0} {A : Type ℓ} (r : Result E A) → ((e : E) × (r ≡ err e)) ⊎ ((a : A) × (r ≡ ok a))
Result-cases (ok a) = inr (a, refl)
Result-cases (err e) = inl (e, refl)
