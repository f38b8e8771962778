-- ===== src/Prelude/Results.antt =====
-- Code that may raise: the exception is a value.
use mathlib.Core.Path.{◌≡◌, refl}
use mathlib.Core.Bool.{Bool, true, false}
use mathlib.Core.Logic.{◌⊎◌, inl, inr}

pub data Result {ℓ κ} (E : Type ℓ) (A : Type κ) : Type (ℓ ⊔ κ) where
  err : E → Result E A
  ok : A → Result E A

-- `if not passed: raise exc`
abbrev pub require {ℓ} : {E : Type ℓ} → Bool → E → Result E (Unit {0})
require false exc = err exc
require true exc = ok tt

-- The code returns, and its result satisfies `P`.
abbrev pub Returns {ℓ κ} : {E : Type ℓ} {A : Type κ} → Result E A → (A → Type 0) → Type 0
Returns (err _) P = ⊥
Returns (ok x) P = P x

module _ {ℓ κ μ} {E : Type ℓ} {A : Type κ} {B : Type μ} where
  infixl 5 ◌>>=◌
  abbrev pub ◌>>=◌ : Result E A → (A → Result E B) → Result E B
  err exc >>= rest = err exc
  ok x >>= rest = rest x

  -- A successful bind succeeds in its first part.
  pub >>=-eq-ok :
      (r : Result E A) (rest : A → Result E B) {y : B}
      → (r >>= rest) ≡ ok y
      → (x : A) × (r ≡ ok x) × (rest x ≡ ok y)
  >>=-eq-ok (err exc) rest e = cc
  >>=-eq-ok (ok x) rest e = (x, refl, e)

infixl 5 ◌>>◌
abbrev pub ◌>>◌ {ℓ κ} : {E : Type ℓ} {B : Type κ} → Result E (Unit {0}) → Result E B → Result E B
first >> second = first >>= λ _. second

pub Result-cases {ℓ κ} :
    {E : Type ℓ} {A : Type κ} (r : Result E A) → ((e : E) × (r ≡ err e)) ⊎ ((a : A) × (r ≡ ok a))
Result-cases (err e) = inl (e, refl)
Result-cases (ok a) = inr (a, refl)
