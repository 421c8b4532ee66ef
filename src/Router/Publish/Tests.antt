-- ===== src/Router/Publish/Tests.antt =====
-- Redis in memory, and a rule that is updated.
use llmapi_gate_way.Common.{String, ◌≡◌, refl, true, some, List, [], ◌∷◌, map}
use llmapi_gate_way.Common.Int.{pos}
use llmapi_gate_way.Common.Assoc.{Assoc, lookup, insert}
use llmapi_gate_way.Common.Time.{zero_time, at}
use llmapi_gate_way.Common.Result.{done}
use llmapi_gate_way.Adapter.Types.{Json}
use llmapi_gate_way.Router.Types.{
  RouteRule, RouteUpdateEvent, ok, provider_kiro, load_balancer_random,
}
use llmapi_gate_way.Router.Manager.{
  new_route_manager, load_rules, get_rule, store_rule, apply_update,
}
use llmapi_gate_way.Router.Publish.{RouteStore, load_stored, read_rule, update_rule, receive_update}

abbrev Store : Type 0
Store = Assoc String × List (String × String)

abbrev memory : RouteStore Store
memory = record {
  set = λ s k v. done (insert k v s.0, s.1);
  get = λ s k. done (lookup k s.0);
  keys = λ s. done (map (λ e. e.0) s.0);
  publish = λ s c t. (s.0, (c, t) ∷ s.1);
}

abbrev rule : RouteRule
rule = record {
  model_id = "m";
  provider = provider_kiro;
  api_keys = [];
  fallback_chain = [];
  load_balancer = load_balancer_random;
  health_check = record { enabled = true; interval = pos 0; timeout = pos 0 };
  updated_at = zero_time;
}

abbrev stamped : RouteRule
stamped = record rule { updated_at = at 7 }

-- Codecs for this rule and its event.
abbrev rules : Json RouteRule
rules = record { marshal = λ k. done "rule"; unmarshal = λ t. done stamped }

abbrev events : Json RouteUpdateEvent
events = record {
  marshal = λ e. done "event";
  unmarshal = λ t. done (record { model_id = "m"; rule = some stamped });
}

abbrev updated : Store
updated = (("route:m", "rule") ∷ [], ("route:updates", "event") ∷ [])

rule_is_stored : (update_rule memory rules events 7 ([], []) rule).0 ≡ updated
unfolding update_rule insert
rule_is_stored = refl

rule_is_loaded :
    get_rule (load_stored memory rules updated new_route_manager).0 "m" ≡ ok (some stamped)
unfolding load_stored read_rule load_rules store_rule get_rule lookup insert new_route_manager
rule_is_loaded = refl

rule_is_received :
    get_rule (receive_update memory rules events "event" new_route_manager) "m" ≡ ok (some stamped)
unfolding receive_update apply_update get_rule lookup insert new_route_manager
rule_is_received = refl
