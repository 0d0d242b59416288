-- ===== src/Base/Errors.antt =====
-- What a Go function returns as a value and an `error`.
use mathlib.Core.Path.{◌≡◌, refl}
use mathlib.Core.Logic.{◌⊎◌, inl, inr}

pub data Answer {ℓ} (E A : Type ℓ) : Type ℓ where
  ok : A → Answer E A
  err : E → Answer E A

infixl 10 ◌>>=◌
abbrev pub ◌>>=◌ {ℓ} : {E A B : Type ℓ} → Answer E A → (A → Answer E B) → Answer E B
ok a >>= f = f a
err e >>= f = err e

pub Answer-cases {ℓ} :
    {E A : Type ℓ} (a : Answer E A) → ((x : A) × (a ≡ ok x)) ⊎ ((e : E) × (a ≡ err e))
Answer-cases (ok x) = inl (x, refl)
Answer-cases (err e) = inr (e, refl)
