-- ===== src/Router/Manager/Tests.antt =====
-- Choices of a key, and the properties of the other files at concrete rules.
use llmapi_gate_way.Common.{
  ℕ, ◌+◌, ◌-◌, ◌%◌, String, ◌≡◌, refl, ◌≢◌, ◌⊎◌, true, some, [], ◌∷◌, arith, length,
}
use llmapi_gate_way.Common.Int.{pos, ◌+ℤ◌}
use llmapi_gate_way.Common.Assoc.{lookup, insert}
use llmapi_gate_way.Common.Time.{zero_time}
use llmapi_gate_way.Router.Types.{
  provider_kiro, ApiKeyConfig, RouteRule, no_active_key, ok, err, index,
}
use llmapi_gate_way.Router.Manager.{
  RouteManager, new_route_manager, store_rule, get_rule, active_keys, total_weight, rand_intn, pick,
  weighted_select, balance, select_from, select_api_key,
}
use llmapi_gate_way.Router.Manager.Total.{IsDraw, NoNegative, select_api_key-total}
use llmapi_gate_way.Router.Manager.RoundRobin.{answer, turn, answer-turn}
use llmapi_gate_way.Router.Manager.Weighted.{weighted_select-interval}

abbrev key_of : String → ℕ → String → ApiKeyConfig
key_of key weight status = record {
  key = key;
  weight = pos weight;
  status = status;
  last_check = zero_time;
}

-- Two active keys, of weight 1 and 3, and a failed one.
abbrev rule_of : String → RouteRule
rule_of load_balancer = record {
  model_id = "m";
  provider = provider_kiro;
  api_keys = key_of "a" 1 "active" ∷ key_of "b" 2 "failed" ∷ key_of "c" 3 "active" ∷ [];
  fallback_chain = [];
  load_balancer = load_balancer;
  health_check = record { enabled = true; interval = pos 0; timeout = pos 0 };
  updated_at = zero_time;
}

-- `rand.Intn(n)` gives the largest value that it can.
abbrev last_draw : ℕ → ℕ
last_draw n = n - 1

abbrev manager : String → RouteManager
manager load_balancer = store_rule new_route_manager (rule_of load_balancer)

manager-found : lookup "m" (manager "round_robin").rules ≡ some (some (rule_of "round_robin"))
unfolding store_rule new_route_manager lookup insert
manager-found = refl

manager-found_weighted : lookup "m" (manager "weighted").rules ≡ some (some (rule_of "weighted"))
unfolding store_rule new_route_manager lookup insert
manager-found_weighted = refl

weighted-chosen : (select_api_key (manager "weighted") last_draw "m").1 ≡ ok (key_of "c" 3 "active")
unfolding select_api_key get_rule select_from balance weighted_select total_weight rand_intn pick
    store_rule new_route_manager lookup insert ◌+ℤ◌
weighted-chosen = refl

last_draw-IsDraw : IsDraw last_draw
last_draw-IsDraw n h = omega arith

active-NoNegative : NoNegative (active_keys (rule_of "weighted").api_keys)
active-NoNegative = (omega arith, (omega arith, tt))

select_api_key-total_example :
    ((active_keys (rule_of "weighted").api_keys ≡ [])
      × ((select_api_key (manager "weighted") last_draw "m").1 ≡ err (no_active_key "m")))
    ⊎ ((active_keys (rule_of "weighted").api_keys ≢ [])
        × (k : ApiKeyConfig) × ((select_api_key (manager "weighted") last_draw "m").1 ≡ ok k))
select_api_key-total_example =
    select_api_key-total (manager "weighted") last_draw "m" (rule_of "weighted")
      manager-found_weighted last_draw-IsDraw active-NoNegative

two_active : length (active_keys (rule_of "round_robin").api_keys) ≡ 2
two_active = refl

answer-turn_example :
    answer (manager "round_robin") last_draw "m" 3
    ≡ index (active_keys (rule_of "round_robin").api_keys) (
        (turn (manager "round_robin") "m" + 3)
        % length (active_keys (rule_of "round_robin").api_keys))
answer-turn_example =
    answer-turn (manager "round_robin") last_draw "m" (rule_of "round_robin") 3 manager-found refl
      (rw two_active (omega arith))

weighted_select-interval_example :
    weighted_select last_draw (key_of "a" 1 "active" ∷ key_of "c" 3 "active" ∷ [])
    ≡ ok (key_of "c" 3 "active")
weighted_select-interval_example =
    weighted_select-interval last_draw (key_of "a" 1 "active" ∷ []) [] (key_of "c" 3 "active")
      (omega arith, (omega arith, tt)) (omega arith) (omega arith)
