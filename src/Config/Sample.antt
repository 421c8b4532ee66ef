-- ===== src/Config/Sample.antt =====
-- A configuration that loads, for the tests: thresholds are fixed-point numbers of six decimals.
use llmapi_gate_way.Common.{ℕ, some, [], ◌∷◌, ◌==◌, if◌then◌else◌}
use llmapi_gate_way.Common.Int.{pos}
use llmapi_gate_way.Common.Result.{done}
use llmapi_gate_way.Config.Types.{RateLimitDimension, Config}
use llmapi_gate_way.Config.Load.{Outside}

abbrev pub dimension : RateLimitDimension ℕ
dimension = record { capacity = pos 100; rate = 10000000 }

abbrev pub config : Config ℕ
config = record {
  server = record {
    host = "0.0.0.0";
    port = pos 8080;
    read_timeout = pos 30;
    write_timeout = pos 30;
  };
  redis = record { addr = "localhost:6379"; password = ""; db = pos 0; pool_size = pos 100 };
  postgres = record {
    host = "localhost";
    port = pos 5432;
    user = "gateway";
    password = "";
    database = "gateway";
    max_open_conns = pos 50;
    max_idle_conns = pos 10;
  };
  kafka = record { brokers = "localhost:9092" ∷ []; topic = "llm"; compression = "snappy" };
  circuit_breaker = record {
    window_size = pos 10;
    error_threshold = 500000;
    half_open_timeout = pos 30;
  };
  rate_limit = record { user = dimension; app = dimension; model = dimension };
  logging = record { level = "info"; format = "json" };
  monitoring = record { prometheus_port = pos 9090 };
}

-- The port comes from the environment.
abbrev pub outside : Outside ℕ
outside = record {
  read_file = λ path. done "yaml";
  parse_yaml = λ text. done config;
  getenv = λ name. if name == "SERVER_PORT" then "9000" else "";
  scan_int = λ text. some (pos 9000);
}
