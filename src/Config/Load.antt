-- ===== src/Config/Load.antt =====
-- internal/config/config.go: `Load` and its steps. The outside is an argument: the files, the YAML
-- parser, the environment, and the number that `fmt.Sscanf` with "%d" finds at the start of a text.
use llmapi_gate_way.Common.{
  String, ◌||◌, Option, none, some, List, [], ◌∷◌, ◌==◌, eqb, if◌then◌else◌, length,
}
use llmapi_gate_way.Common.Int.{ℤ, pos, ltb_ℤ, leb_ℤ}
use llmapi_gate_way.Common.Float.{Float64}
use llmapi_gate_way.Common.Result.{Result, done, failed, ◌>>=◌}
use llmapi_gate_way.Config.Types.{
  Config, ConfigError, read_failed, parse_failed, invalid_server_port, redis_address_required,
  postgres_host_required, postgres_database_required, kafka_brokers_required, kafka_topic_required,
  error_threshold_out_of_range, user_capacity_not_positive, app_capacity_not_positive,
  model_capacity_not_positive,
}

pub record Outside (F : Type 0) : Type 0 where
  pub read_file : String → Result String String
  pub parse_yaml : String → Result String (Config F)
  -- `os.Getenv`: empty where the variable is not set.
  pub getenv : String → String
  pub scan_int : String → Option ℤ

-- `if v := os.Getenv(...); v != "" { x = v }`
unfoldable pub override : String → String → String
override v x = if v == "" then x else v

abbrev pub or_old : ℤ → Option ℤ → ℤ
or_old x none = x
or_old x (some n) = n

-- The same with `fmt.Sscanf`, which leaves the number alone where it finds none.
unfoldable pub override_int : (String → Option ℤ) → String → ℤ → ℤ
override_int scan v x = if v == "" then x else or_old x (scan v)

-- KAFKA_BROKERS becomes one broker.
unfoldable pub override_brokers : String → List String → List String
override_brokers v x = if v == "" then x else v ∷ []

unfoldable pub apply_env_overrides : {F : Type 0} → Outside F → Config F → Config F
apply_env_overrides out cfg = record cfg {
  server = record cfg.server {
    host = override (out.getenv "SERVER_HOST") cfg.server.host;
    port = override_int out.scan_int (out.getenv "SERVER_PORT") cfg.server.port;
  };
  redis = record cfg.redis {
    addr = override (out.getenv "REDIS_ADDR") cfg.redis.addr;
    password = override (out.getenv "REDIS_PASSWORD") cfg.redis.password;
    db = override_int out.scan_int (out.getenv "REDIS_DB") cfg.redis.db;
  };
  postgres = record cfg.postgres {
    host = override (out.getenv "POSTGRES_HOST") cfg.postgres.host;
    port = override_int out.scan_int (out.getenv "POSTGRES_PORT") cfg.postgres.port;
    user = override (out.getenv "POSTGRES_USER") cfg.postgres.user;
    password = override (out.getenv "POSTGRES_PASSWORD") cfg.postgres.password;
    database = override (out.getenv "POSTGRES_DATABASE") cfg.postgres.database;
  };
  kafka = record cfg.kafka {
    brokers = override_brokers (out.getenv "KAFKA_BROKERS") cfg.kafka.brokers;
    topic = override (out.getenv "KAFKA_TOPIC") cfg.kafka.topic;
  };
  logging = record cfg.logging { level = override (out.getenv "LOG_LEVEL") cfg.logging.level };
}

unfoldable pub validate : (fl : Float64) → Config fl.F → Result ConfigError (Unit {0})
validate fl cfg =
    if leb_ℤ cfg.server.port (pos 0) || ltb_ℤ (pos 65535) cfg.server.port
    then failed (invalid_server_port cfg.server.port)
    else if cfg.redis.addr == ""
    then failed redis_address_required
    else if cfg.postgres.host == ""
    then failed postgres_host_required
    else if cfg.postgres.database == ""
    then failed postgres_database_required
    else if eqb (length cfg.kafka.brokers) 0
    then failed kafka_brokers_required
    else if cfg.kafka.topic == ""
    then failed kafka_topic_required
    else if fl.le cfg.circuit_breaker.error_threshold (fl.of_int (pos 0))
        || fl.lt (fl.of_int (pos 1)) cfg.circuit_breaker.error_threshold
    then failed error_threshold_out_of_range
    else if leb_ℤ cfg.rate_limit.user.capacity (pos 0)
    then failed user_capacity_not_positive
    else if leb_ℤ cfg.rate_limit.app.capacity (pos 0)
    then failed app_capacity_not_positive
    else if leb_ℤ cfg.rate_limit.model.capacity (pos 0)
    then failed model_capacity_not_positive
    else done tt

abbrev pub fail_as {ℓ} :
    {A : Type ℓ} → (String → ConfigError) → Result String A → Result ConfigError A
fail_as wrap (done a) = done a
fail_as wrap (failed e) = failed (wrap e)

unfoldable pub load : (fl : Float64) → Outside fl.F → String → Result ConfigError (Config fl.F)
load fl out path = do
  text ← fail_as read_failed (out.read_file path)
  parsed ← fail_as parse_failed (out.parse_yaml text)
  ok ← validate fl (apply_env_overrides out parsed)
  done (apply_env_overrides out parsed)
