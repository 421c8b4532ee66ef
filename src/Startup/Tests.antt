-- ===== src/Startup/Tests.antt =====
-- The start of a gateway whose database cannot be reached.
use llmapi_gate_way.Common.Fixed.{fixed}
use llmapi_gate_way.Config.Load.{
  override, override_int, override_brokers, apply_env_overrides, validate, load,
}
use llmapi_gate_way.Config.Sample.{outside}
use llmapi_gate_way.Server.Memory.{memory_gin}
use llmapi_gate_way.Startup.{
  opens, gives_up, logger, redis_client, exited, Handlers, Environment, main,
}
use llmapi_gate_way.Common.{ℕ, String, ◌≡◌, refl, none, some, [], ◌∷◌}

abbrev handlers : Handlers String
handlers = record {
  health = record { status_ok = "ok"; status_ready = "ready"; metrics = "metrics" };
  chat = "chat";
  list_history = "list";
  start_replay = "start";
}

abbrev all_up : Environment ℕ
all_up = record {
  outside = outside;
  init_logger = λ level format. none;
  connect_redis = λ c. none;
  connect_postgres = λ c. none;
}

-- Redis is connected by then, and is not closed.
abbrev database_down : Environment ℕ
database_down = record all_up { connect_postgres = λ c. some "connection refused" }

redis_left_open : main fixed memory_gin handlers database_down ≡ (
  opens logger ∷ opens redis_client ∷ gives_up "failed to initialize PostgreSQL client" ∷ [],
  exited 1,
)
unfolding main load validate apply_env_overrides override override_int override_brokers
redis_left_open = refl
