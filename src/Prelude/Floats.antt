-- ===== src/Prelude/Floats.antt =====
-- Python's `float`. The language's rounding is not modelled: the numbers are a type with the
-- operations that the program applies to them, and each definition takes these as an argument.
use mathlib.Core.Path.{◌≡◌}
use mathlib.Core.Bool.{Bool, true, false}
use mathlib.Core.Option.{Option}
use Prim.Native.Nat.{ℕ}
use Prim.Native.String.{String}
use media_orchard.Prelude.Int.{ℤ}

pub record Floats (F : Type 0) : Type 0 where
  -- `lit m k` is the literal m / 10 ^ k: 0.30 is `lit 30 2`.
  pub lit : ℕ → ℕ → F
  pub of_int : ℤ → F
  -- float(text): `none` is a `ValueError`
  pub of_text : String → Option F
  pub add : F → F → F
  pub sub : F → F → F
  pub mul : F → F → F
  pub div : F → F → F
  -- round(x, digits)
  pub round : F → ℕ → F
  -- x == 0
  pub is_zero : F → Bool
  pub lt : F → F → Bool
  pub le : F → F → Bool

-- What IEEE 754 says of `<` on numbers that are not NaN: a strict weak order.
pub record IsOrdered {F : Type 0} (fl : Floats F) : Type 0 where
  pub lt_asymm : (x y : F) → fl.lt x y ≡ true → fl.lt y x ≡ false
  pub not_lt_trans : (x y z : F) → fl.lt y x ≡ false → fl.lt z y ≡ false → fl.lt z x ≡ false
