-- ===== src/Router/Health/Tests.antt =====
-- Probes and marks at concrete rules.
use llmapi_gate_way.Common.{String, ◌≡◌, refl, ◌≢◌, true, some, [], ◌∷◌, ne_of_eq_false}
use llmapi_gate_way.Common.Int.{pos}
use llmapi_gate_way.Common.Assoc.{lookup, insert}
use llmapi_gate_way.Common.Time.{zero_time}
use llmapi_gate_way.Router.Types.{provider_kiro, ApiKeyConfig, RouteRule, ok}
use llmapi_gate_way.Router.Manager.{
  RouteManager, new_route_manager, store_rule, get_rule, balance, select_from, select_api_key,
}
use llmapi_gate_way.Router.Health.{
  Upstreams, probe_rule, probe_rules, probe_all, mark_first, mark_key, mark_key_failed,
}
use llmapi_gate_way.Router.Health.Marking.{Distinct, mark_key_failed-select_api_key}

abbrev key_of : String → String → ApiKeyConfig
key_of key status = record { key = key; weight = pos 1; status = status; last_check = zero_time }

abbrev rule : RouteRule
rule = record {
  model_id = "m";
  provider = provider_kiro;
  api_keys = key_of "a" "active" ∷ key_of "b" "failed" ∷ key_of "c" "active" ∷ [];
  fallback_chain = [];
  load_balancer = "first";
  health_check = record { enabled = true; interval = pos 0; timeout = pos 0 };
  updated_at = zero_time;
}

abbrev manager : RouteManager
manager = store_rule new_route_manager rule

manager-found : lookup "m" manager.rules ≡ some (some rule)
unfolding store_rule new_route_manager lookup insert
manager-found = refl

-- Every probe is answered that too many requests were made.
abbrev busy : Upstreams
busy url key = some record { status_code = 429; checked = 7; recovered = 8 }

chosen :
    (select_api_key (mark_key_failed manager 9 "m" "a").0 (λ n. 0) "m").1 ≡ ok (key_of "c" "active")
unfolding mark_key_failed mark_key mark_first select_api_key get_rule select_from balance store_rule
    new_route_manager lookup insert
chosen = refl

rule-Distinct : Distinct rule.api_keys
rule-Distinct = (
  (ne_of_eq_false "b" "a" refl, (ne_of_eq_false "c" "a" refl, tt)),
  ((ne_of_eq_false "c" "b" refl, tt), (tt, tt)),
)

mark_key_failed-select_api_key_example : (key_of "c" "active").key ≢ "a"
mark_key_failed-select_api_key_example =
    mark_key_failed-select_api_key manager 9 "m" "a" rule (λ n. 0) (key_of "c" "active")
      manager-found rule-Distinct chosen

abbrev probed : RouteManager
probed = record manager { rules = ("m", some (probe_rule busy rule)) ∷ [] }

probe-fine : probe_all busy manager ≡ ok probed
unfolding probe_all probe_rules store_rule new_route_manager insert
probe-fine = refl
