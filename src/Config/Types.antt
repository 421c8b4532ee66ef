-- ===== src/Config/Types.antt =====
-- The structs of internal/config/config.go. An int or a `time.Duration` is an integer; `F` is float64.
use llmapi_gate_way.Common.{String, List}
use llmapi_gate_way.Common.Int.{ℤ}

pub record ServerConfig : Type 0 where
  pub host : String
  pub port : ℤ
  pub read_timeout : ℤ
  pub write_timeout : ℤ

pub record RedisConfig : Type 0 where
  pub addr : String
  pub password : String
  pub db : ℤ
  pub pool_size : ℤ

pub record PostgresConfig : Type 0 where
  pub host : String
  pub port : ℤ
  pub user : String
  pub password : String
  pub database : String
  pub max_open_conns : ℤ
  pub max_idle_conns : ℤ

pub record KafkaConfig : Type 0 where
  pub brokers : List String
  pub topic : String
  pub compression : String

pub record CircuitBreakerConfig (F : Type 0) : Type 0 where
  pub window_size : ℤ
  pub error_threshold : F
  pub half_open_timeout : ℤ

pub record RateLimitDimension (F : Type 0) : Type 0 where
  pub capacity : ℤ
  pub rate : F

pub record RateLimitConfig (F : Type 0) : Type 0 where
  pub user : RateLimitDimension F
  pub app : RateLimitDimension F
  pub model : RateLimitDimension F

pub record LoggingConfig : Type 0 where
  pub level : String
  pub format : String

pub record MonitoringConfig : Type 0 where
  pub prometheus_port : ℤ

pub record Config (F : Type 0) : Type 0 where
  pub server : ServerConfig
  pub redis : RedisConfig
  pub postgres : PostgresConfig
  pub kafka : KafkaConfig
  pub circuit_breaker : CircuitBreakerConfig F
  pub rate_limit : RateLimitConfig F
  pub logging : LoggingConfig
  pub monitoring : MonitoringConfig

pub data ConfigError : Type 0 where
  read_failed : String → ConfigError
  parse_failed : String → ConfigError
  invalid_server_port : ℤ → ConfigError
  redis_address_required : ConfigError
  postgres_host_required : ConfigError
  postgres_database_required : ConfigError
  kafka_brokers_required : ConfigError
  kafka_topic_required : ConfigError
  error_threshold_out_of_range : ConfigError
  user_capacity_not_positive : ConfigError
  app_capacity_not_positive : ConfigError
  model_capacity_not_positive : ConfigError
