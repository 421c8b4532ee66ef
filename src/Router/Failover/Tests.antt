-- ===== src/Router/Failover/Tests.antt =====
-- A run of failover in a world where one key only answers.
use llmapi_gate_way.Common.{
  String, ◌≡◌, refl, true, false, not, none, some, [], ◌∷◌, ◌==◌, if◌then◌else◌, ℕ, All,
}
use llmapi_gate_way.Common.Int.{pos}
use llmapi_gate_way.Common.Assoc.{lookup, insert}
use llmapi_gate_way.Common.Time.{zero_time, at, second}
use llmapi_gate_way.Router.Types.{provider_kiro, load_balancer_random, ApiKeyConfig, RouteRule}
use llmapi_gate_way.Router.Manager.{
  RouteManager, new_route_manager, store_rule, get_rule, rand_intn, balance, select_from,
  select_api_key,
}
use llmapi_gate_way.Router.Failover.{
  World, select, attempt, try_key, try_primary_key, backup_loop, with_rule, try_backup_keys,
  execute_with_failover,
}
use llmapi_gate_way.Common.Fixed.{fixed}
use llmapi_gate_way.Breaker.Circuit.{state_open, CircuitBreaker, SlidingWindow, empty_bucket}
use llmapi_gate_way.Router.Failover.Guarded.{Surroundings, guarded, execute_with_failover-IsSpared}
use llmapi_gate_way.Router.Failover.Trace.{asked, sent, told_success, told_failure, traced}
use llmapi_gate_way.Router.Failover.Protocol.{Ends, execute_with_failover-Ends}

-- Requests with the key "c" succeed, the key "b" is refused.
abbrev only_c : World (Unit {0}) String
only_c = record {
  allow_request = λ key s. (s, not (key == "b"));
  record_success = λ key s. s;
  record_failure = λ key s. s;
  execute = λ key s. (s, if key == "c" then none else some "down");
  rand = λ s. (s, λ n. 0);
}

abbrev key_of : String → ApiKeyConfig
key_of key = record { key = key; weight = pos 1; status = "active"; last_check = zero_time }

abbrev rule : RouteRule
rule = record {
  model_id = "m";
  provider = provider_kiro;
  api_keys = key_of "a" ∷ key_of "b" ∷ key_of "c" ∷ [];
  fallback_chain = [];
  load_balancer = load_balancer_random;
  health_check = record { enabled = true; interval = pos 0; timeout = pos 0 };
  updated_at = zero_time;
}

abbrev manager : RouteManager
manager = store_rule new_route_manager rule

execute_with_failover-Ends_example :
    Ends only_c manager.rules [] (execute_with_failover (traced only_c) "m" (manager, (tt, [])))
execute_with_failover-Ends_example =
    execute_with_failover-Ends only_c manager.rules [] "m" manager tt refl

-- The first key fails, the second is refused, the third succeeds.
run_log :
    (execute_with_failover (traced only_c) "m" (manager, (tt, []))).0.1.1
    ≡ told_success "c"
      ∷ sent "c" true
      ∷ asked "c" true
      ∷ asked "b" false
      ∷ told_failure "a"
      ∷ sent "a" false
      ∷ asked "a" true
      ∷ []
unfolding execute_with_failover try_primary_key try_backup_keys with_rule backup_loop try_key
    attempt select select_api_key get_rule select_from balance rand_intn store_rule
    new_route_manager lookup insert
run_log = refl

-- With the circuit breaker: that of the key "b" opened at 7 seconds, and it is 8 seconds.
abbrev open_window : SlidingWindow
open_window = record {
  buckets = empty_bucket ∷ [];
  bucket_size = second;
  total_buckets = 1;
  state = state_open;
  last_state_change = at 7000000000;
  half_open_count = 0;
}

abbrev tripped : CircuitBreaker ℕ
tripped = record {
  windows = ("b", open_window) ∷ [];
  config = record {
    window_size = pos second;
    error_threshold = 500000;
    half_open_timeout = pos 5000000000;
    max_requests = pos 1;
  };
}

abbrev surroundings : Surroundings (Unit {0}) String
surroundings = record {
  readings = λ s. record {
    created = 8000000000;
    recorded = 8000000000;
    rated = 8000000000;
    changed = 8000000000;
  };
  send = λ key s. (s, if key == "c" then none else some "down");
  draw = λ s. (s, λ n. 0);
}

execute_with_failover-IsSpared_example :
    All
      (λ k. (k == "b") ≡ false)
      (execute_with_failover
        (guarded fixed surroundings)
        "m"
        (manager, (tripped, (tt, [])))).0.1.1.1
unfolding lookup
execute_with_failover-IsSpared_example =
    execute_with_failover-IsSpared fixed surroundings "b" "m" manager tripped open_window tt refl
      refl (λ s. refl)
