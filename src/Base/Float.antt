-- ===== src/Base/Float.antt =====
-- Go's float64 as the operations that the program uses. The type of floats is a parameter of the
-- model: IEEE arithmetic is not computed here.
use Prim.Native.Nat.{ℕ}
use mathlib.Core.Bool.{Bool}
use notmanytask.Base.Int.{ℤ}

pub record Float (W : Type 0) : Type 0 where
  pub of_int : ℤ → W  -- float64(i)
  pub to_int : W → ℤ  -- int(f)
  pub ratio : ℕ → ℕ → W  -- the literal nearest to p / q
  pub add : W → W → W
  pub sub : W → W → W
  pub mul : W → W → W
  pub div : W → W → W
  pub lt : W → W → Bool  -- x < y
  pub eq : W → W → Bool  -- x == y
  pub max : W → W → W  -- math.Max
  pub exp : W → W  -- math.Exp
