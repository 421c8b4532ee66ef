-- ===== src/Common/Decimal.antt =====
-- Numbers as texts: `%d` of Go's fmt for an int64 that is not negative.
use Prim.Native.Nat.{ℕ, zero, suc, ◌/◌, ◌%◌}
use Prim.Native.String.{String, ◌++◌ as concat}
use mathlib.Core.Bool.{true, false}
use mathlib.Core.Option.{Option, none, some}
use mathlib.Core.List.{[], ◌∷◌}
use llmapi_gate_way.Common.Tests.{ltb}
use llmapi_gate_way.Common.Lists.{get_elem?}
use llmapi_gate_way.Common.Int.{ℤ, pos, negsuc}

abbrev text_or_empty : Option String → String
text_or_empty none = ""
text_or_empty (some t) = t

abbrev digit : ℕ → String
digit n =
    text_or_empty (get_elem? ("0" ∷ "1" ∷ "2" ∷ "3" ∷ "4" ∷ "5" ∷ "6" ∷ "7" ∷ "8" ∷ "9" ∷ []) n)

-- At most one digit more than the fuel.
unfoldable pub decimal_within : ℕ → ℕ → String
decimal_within zero n = digit (n % 10)
decimal_within (suc fuel) n = elim (ltb n 10) [
  | true ↦ digit n
  | false ↦ concat (decimal_within fuel (n / 10)) (digit (n % 10))
]

-- An int64 has at most 19 digits.
abbrev pub decimal : ℕ → String
decimal = decimal_within 18

-- An int64 as `%d` prints it.
abbrev pub int_text : ℤ → String
int_text (pos n) = decimal n
int_text (negsuc n) = concat "-" (decimal (suc n))
