-- ===== src/Common/Float.antt =====
-- Go's `float64`, which the language's runtime implements: a type with the operations that the
-- program uses, taken as a parameter.
use mathlib.Core.Bool.{Bool, false}
use Prim.Native.Nat.{ℕ, ◌≤◌, ◌<◌}
use mathlib.Core.Path.{◌≡◌}
use llmapi_gate_way.Common.Int.{ℤ, pos}

pub record Float64 : Type 1 where
  pub F : Type 0
  -- `float64(n)`
  pub of_int : ℤ → F
  pub add : F → F → F
  pub sub : F → F → F
  pub mul : F → F → F
  pub div : F → F → F
  pub lt : F → F → Bool
  pub le : F → F → Bool

-- IEEE 754 division rounds correctly, so a quotient of counts is not above 1 where the first count
-- is at most the second; and 1 is not below 0.
pub record HasRatios (fl : Float64) : Type 0 where
  pub ratio-le-one :
      (a b : ℕ)
      → a ≤ b
      → 0 < b
      → fl.lt (fl.of_int (pos 1)) (fl.div (fl.of_int (pos a)) (fl.of_int (pos b))) ≡ false
  pub zero-le-one : fl.lt (fl.of_int (pos 1)) (fl.of_int (pos 0)) ≡ false
