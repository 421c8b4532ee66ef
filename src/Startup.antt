-- ===== src/Startup.antt =====
-- cmd/gateway/main.go: the order in which the gateway starts and stops, and what its components are made
-- with. What the outside answers is an argument; log lines are left out.
pub mod Dispatch
pub mod Serving
mod Tests
use llmapi_gate_way.Common.Result.{Result, done, failed}
use llmapi_gate_way.Breaker.Circuit.{CircuitBreaker, new_circuit_breaker}
use llmapi_gate_way.Breaker.Limiter.{RateLimiterConfig, new_rate_limiter}
use llmapi_gate_way.Config.Types.{RedisConfig, PostgresConfig, Config, ConfigError}
use llmapi_gate_way.Config.Load.{Outside, load}
use llmapi_gate_way.Server.{
  Gin, Server, HealthHandlers, new_server, register_route, and_then, register_health_check,
}
use llmapi_gate_way.Common.{
  ℕ, zero, suc, ◌+◌, ◌-◌, ◌*◌, ◌/◌, ◌%◌, ◌≤◌, ◌<◌, min, String, ◌≡◌, refl, sym, ap, ◌∙◌, ◌≢◌, ◌↔◌,
  ◌⊎◌, inl, inr, Bool, true, false, not, ◌&&◌, ◌||◌, Option, none, some, List, [], ◌∷◌, ◌++◌, map,
  arith, ◌==◌, eq_iff, eq_refl, eq_false_of_ne, ne_of_eq_false, some_inj, ltb, leb, eqb,
  if◌then◌else◌, ltb→lt, lt→ltb, eqb_iff, Bool-cases, Option-cases, length, get_elem?, modify,
  replicate, length-append, length-modify, length-replicate, length-map, get_elem?-in_range, All,
  keep, List-cases, eqb_pos,
}
use llmapi_gate_way.Common.Int.{
  ℤ, pos, negsuc, pos_part, neg_part, sub_ℕ, ◌+ℤ◌, ◌-ℤ◌, ◌≤ℤ◌, ltb_ℤ, leb_ℤ, +ℤ_parts, -ℤ_parts,
  eq_of_parts, int_laws,
}
use llmapi_gate_way.Common.Assoc.{
  Assoc, lookup, insert, delete, lookup-insert, lookup-delete, lookup-insert_self, lookup-insert_ne,
  assoc_laws,
}
use llmapi_gate_way.Common.Time.{Time, zero_time, at, second, max_duration, saturate, since, unix}
use llmapi_gate_way.Common.Float.{Float64}

-- What main closes again.
pub data Resource : Type 0 where
  logger redis_client postgres_client replay_collector stream_cleanup : Resource

-- What main does that can be seen from outside, with what the components are made with.
pub data Act (E F : Type 0) : Type 0 where
  prints : String → Act E F
  -- `log.Fatal`
  gives_up : String → Act E F
  opens : Resource → Act E F
  loads_rules : Act E F
  subscribes : Act E F
  makes_breaker : CircuitBreaker F → Act E F
  -- The interval of the probes.
  starts_probes : ℤ → Act E F
  makes_limiter : RateLimiterConfig F → Act E F
  listens : Server E → Act E F
  shuts_down : Act E F
  closes : Resource → Act E F

-- How the process ends: with a status, by the end of main, or with a panic.
pub data Ending : Type 0 where
  exited : ℕ → Ending
  ended_main : Ending
  crashed : Ending

-- The handlers of the API.
pub record Handlers (H : Type 0) : Type 0 where
  pub health : HealthHandlers H
  pub chat : H
  pub list_history : H
  pub start_replay : H

-- What the outside answers: an error or none.
pub record Environment (F : Type 0) : Type 0 where
  pub outside : Outside F
  pub init_logger : String → String → Option String
  pub connect_redis : RedisConfig → Option String
  pub connect_postgres : PostgresConfig → Option String

-- What main has done, and the resources whose closing it has deferred, the last first.
pub record Process (E F : Type 0) : Type 0 where
  pub acts : List (Act E F)
  pub deferred : List Resource

module _ {E F : Type 0} where
  abbrev pub and_last : List (Act E F) → Act E F → List (Act E F)
  and_last [] act = act ∷ []
  and_last (first ∷ rest) act = first ∷ and_last rest act

  abbrev pub close_all : List (Act E F) → List Resource → List (Act E F)
  close_all acts [] = acts
  close_all acts (resource ∷ rest) = close_all (and_last acts (closes resource)) rest

  abbrev pub idle : Process E F
  idle = record { acts = []; deferred = [] }

  abbrev pub does : Act E F → Process E F → Process E F
  does act p = record p { acts = and_last p.acts act }

  -- A resource is opened, and its closing deferred.
  abbrev pub opening : Resource → Process E F → Process E F
  opening resource p = record {
    acts = and_last p.acts (opens resource);
    deferred = resource ∷ p.deferred;
  }

  -- The end of main, by a return or a panic: what was deferred is run.
  abbrev pub finishes : Ending → Process E F → List (Act E F) × Ending
  finishes ending p = (close_all p.acts p.deferred, ending)

  -- `os.Exit` and `log.Fatal` run nothing that was deferred.
  abbrev pub exits : Process E F → List (Act E F) × Ending
  exits p = (p.acts, exited 1)

module _ (fl : Float64) where
  -- The circuit breaker and the rate limiter of a configuration.
  abbrev pub breaker_of : Config fl.F → CircuitBreaker fl.F
  breaker_of cfg = new_circuit_breaker (record {
    window_size = cfg.circuit_breaker.window_size;
    error_threshold = cfg.circuit_breaker.error_threshold;
    half_open_timeout = cfg.circuit_breaker.half_open_timeout;
    max_requests = pos 10;
  })

  abbrev pub limiter_of : Config fl.F → RateLimiterConfig fl.F
  limiter_of cfg = new_rate_limiter fl (
      some (record {
        user_capacity = cfg.rate_limit.user.capacity;
        user_rate = cfg.rate_limit.user.rate;
        app_capacity = cfg.rate_limit.app.capacity;
        app_rate = cfg.rate_limit.app.rate;
        model_capacity = cfg.rate_limit.model.capacity;
        model_rate = cfg.rate_limit.model.rate;
      }))

module _ {E : Type 0} {F : Type 0} {H : Type 0} (gin : Gin E H) where
  abbrev pub server_of : Config F → Server E
  server_of cfg =
      new_server gin cfg.server.host cfg.server.port cfg.server.read_timeout
        cfg.server.write_timeout

module _ {E H : Type 0} (gin : Gin E H) (handlers : Handlers H) where
  -- The routes of the API.
  unfoldable pub register_api : Server E → Option (Server E)
  register_api s =
      and_then gin (register_route gin "POST" "/v1/chat/completions" handlers.chat s) (λ s1.
        and_then gin (register_route gin "GET" "/v1/replay/history" handlers.list_history s1)
          (λ s2. register_route gin "POST" "/v1/replay/run" handlers.start_replay s2))

module _ (fl : Float64) {E H : Type 0} (gin : Gin E H) (handlers : Handlers H)
    (env : Environment fl.F) where
  -- From the rules to the stream proxy.
  abbrev pub components : Config fl.F → Process E fl.F → Process E fl.F
  components cfg p = opening stream_cleanup (
      opening replay_collector (
        does (makes_limiter (limiter_of fl cfg)) (
          does (starts_probes cfg.circuit_breaker.half_open_timeout)
            (does (makes_breaker (breaker_of fl cfg)) (does subscribes (does loads_rules p))))))

  -- The server runs until a signal comes.
  abbrev pub serve : Config fl.F → Process E fl.F → Option (Server E) → List (Act E fl.F) × Ending
  serve cfg p (some server) = finishes ended_main (does shuts_down (does (listens server) p))
  serve cfg p none = finishes crashed p

  abbrev pub with_health :
      Config fl.F → Process E fl.F → Option (Server E) → List (Act E fl.F) × Ending
  with_health cfg p (some server) = serve cfg (components cfg p) (register_api gin handlers server)
  with_health cfg p none = finishes crashed p

  abbrev pub with_postgres :
      Config fl.F → Process E fl.F → Option String → List (Act E fl.F) × Ending
  with_postgres cfg p (some e) = exits (does (gives_up "failed to initialize PostgreSQL client") p)
  with_postgres cfg p none =
      with_health cfg (opening postgres_client p)
        (register_health_check gin handlers.health (server_of gin cfg))

  abbrev pub with_redis : Config fl.F → Process E fl.F → Option String → List (Act E fl.F) × Ending
  with_redis cfg p (some e) = exits (does (gives_up "failed to initialize Redis client") p)
  with_redis cfg p none =
      with_postgres cfg (opening redis_client p) (env.connect_postgres cfg.postgres)

  abbrev pub with_logger : Config fl.F → Option String → List (Act E fl.F) × Ending
  with_logger cfg (some e) = exits (does (prints "failed to initialize logger") idle)
  with_logger cfg none = with_redis cfg (opening logger idle) (env.connect_redis cfg.redis)

  abbrev pub with_config : Result ConfigError (Config fl.F) → List (Act E fl.F) × Ending
  with_config (failed e) = exits (does (prints "failed to load config") idle)
  with_config (done cfg) = with_logger cfg (env.init_logger cfg.logging.level cfg.logging.format)

  unfoldable pub main : List (Act E fl.F) × Ending
  main = with_config (load fl env.outside "configs/config.example.yaml")
