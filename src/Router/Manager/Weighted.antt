-- ===== src/Router/Manager/Weighted.antt =====
-- `weightedSelect` of internal/router/manager.go: which draw selects which key.
use llmapi_gate_way.Common.{
  ℕ, zero, suc, ◌+◌, ◌-◌, ◌≤◌, ◌<◌, ◌≡◌, refl, ap, false, List, [], ◌∷◌, ◌++◌, arith, length,
  length-append, get_elem?-in_range,
}
use llmapi_gate_way.Common.Int.{ℤ, pos, pos_part, ◌+ℤ◌, ◌≤ℤ◌}
use llmapi_gate_way.Router.Types.{ApiKeyConfig, ok}
use llmapi_gate_way.Router.Manager.{total_weight, rand_intn, pick, is_zero, weighted_select}
use llmapi_gate_way.Router.Manager.Total.{NoNegative}

-- The sum of the weights, where none is negative.
abbrev pub weight_sum : List ApiKeyConfig → ℕ
weight_sum [] = 0
weight_sum (k ∷ ks) = pos_part k.weight + weight_sum ks

total_weight-weight_sum :
    (keys : List ApiKeyConfig) → NoNegative keys → total_weight keys ≡ pos (weight_sum keys)
unfolding total_weight ◌+ℤ◌
total_weight-weight_sum [] h = refl
total_weight-weight_sum (k ∷ ks) h = rw (total_weight-weight_sum ks h.1) (ground arith)

weight_sum-append :
    (before after : List ApiKeyConfig)
    → weight_sum (before ++ after) ≡ weight_sum before + weight_sum after
weight_sum-append [] after = omega arith
weight_sum-append (k ∷ before) after = omega (arith, weight_sum-append before after)

+ℤ_pos : (c : ℕ) (w : ℤ) → pos 0 ≤ℤ w → pos c +ℤ w ≡ pos (c + pos_part w)
unfolding ◌+ℤ◌
+ℤ_pos c w h = ground arith

-- Past the keys whose intervals end at or below the draw.
pick-interval :
    (r c : ℕ) (before after : List ApiKeyConfig) (k last : ApiKeyConfig)
    → NoNegative (before ++ k ∷ after)
    → c + weight_sum before ≤ r
    → r < c + weight_sum before + pos_part k.weight
    → pick r (pos c) (before ++ k ∷ after) last ≡ k
unfolding pick
pick-interval r c [] after k last h low high = rw (+ℤ_pos c k.weight h.0) (ground arith)
pick-interval r c (b ∷ before) after k last h low high = rw (+ℤ_pos c b.weight h.0) (
    ground (
      arith,
      pick-interval r (c + pos_part b.weight) before after k last h.1 (omega arith) (omega arith),
    ))

rand_intn-pos : (intn : ℕ → ℕ) (n : ℕ) → 0 < n → rand_intn intn (pos n) ≡ ok (intn n)
unfolding rand_intn
rand_intn-pos intn zero h = elim h [ ]
rand_intn-pos intn (suc n) h = refl

is_zero-pos : (n : ℕ) → 0 < n → is_zero (pos n) ≡ false
is_zero-pos zero h = elim h [ ]
is_zero-pos (suc n) h = refl

-- The draw decides the key by intervals: laid end to end in the order of the list, each key has an
-- interval as long as its weight, and the key is chosen whose interval holds the value of
-- `rand.Intn(totalWeight)`. No weight may be negative.
pub weighted_select-interval :
    (intn : ℕ → ℕ) (before after : List ApiKeyConfig) (k : ApiKeyConfig)
    → NoNegative (before ++ k ∷ after)
    → weight_sum before ≤ intn (weight_sum (before ++ k ∷ after))
    → intn (weight_sum (before ++ k ∷ after)) < weight_sum before + pos_part k.weight
    → weighted_select intn (before ++ k ∷ after) ≡ ok k
unfolding weighted_select
weighted_select-interval intn before after k h low high =
    let keys = before ++ k ∷ after in
    let some_weight : 0 < weight_sum keys = omega (arith, weight_sum-append before (k ∷ after)) in
    let (last, at_end) =
      get_elem?-in_range keys (length keys - 1)
        (omega (arith, length-append {0} before (k ∷ after))) in
    rw
      (
        total_weight-weight_sum keys h,
        is_zero-pos _ some_weight,
        rand_intn-pos intn _ some_weight,
        at_end,
      )
      (ap ok (
        pick-interval (intn (weight_sum keys)) 0 before after k last h (omega arith) (omega arith)))
