-- ===== src/Common/Fixed.antt =====
-- Fixed-point numbers with six decimals: a stand-in for `float64` at which the theorems are tried.
use Prim.Native.Nat.{ℕ, ◌+◌, ◌-◌, ◌*◌, ◌/◌, ◌≤◌, ◌<◌}
use mathlib.Core.Path.{◌≡◌, refl}
use mathlib.Core.Bool.{false}
use native.Mathlib.Nat.{div-le_of_le-mul}
use native.Mathlib.Omega.{arith}
use llmapi_gate_way.Common.Tests.{ltb, leb}
use llmapi_gate_way.Common.Int.{pos_part}
use llmapi_gate_way.Common.Float.{Float64, HasRatios}

abbrev pub fixed : Float64
fixed = record {
  F = ℕ;
  of_int = λ n. pos_part n * 1000000;
  add = λ a b. a + b;
  sub = λ a b. a - b;
  mul = λ a b. a * b / 1000000;
  div = λ a b. a * 1000000 / b;
  lt = ltb;
  le = leb;
}

quotient_le :
    (a b : ℕ) → a ≤ b → 0 < b → ltb 1000000 (a * 1000000 * 1000000 / (b * 1000000)) ≡ false
quotient_le a b h p =
    let q : a * 1000000 * 1000000 / (b * 1000000) ≤ 1000000 =
      div-le_of_le-mul (b * 1000000) (omega arith) in
    ground arith

pub fixed-HasRatios : HasRatios fixed
fixed-HasRatios = record { ratio-le-one = quotient_le; zero-le-one = refl }
