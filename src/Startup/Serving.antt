-- ===== src/Startup/Serving.antt =====
-- What a gateway that serves was started with, and what its routes reach.
use llmapi_gate_way.Common.Result.{done}
use llmapi_gate_way.Breaker.Limiter.{RateLimiterConfig}
use llmapi_gate_way.Config.Types.{Config}
use llmapi_gate_way.Config.Load.{load}
use llmapi_gate_way.Config.Valid.{IsValid}
use llmapi_gate_way.Server.{Gin, GinLaws, Server}
use llmapi_gate_way.Startup.Dispatch.{Dispatches}
use llmapi_gate_way.Startup.{
  Resource, logger, redis_client, postgres_client, replay_collector, stream_cleanup, Act, opens,
  makes_limiter, listens, shuts_down, closes, exited, ended_main, Handlers, Environment, Process,
  idle, opening, main,
}
use llmapi_gate_way.Common.{ℕ, ◌≡◌, ◌⊎◌, true, false, List, [], ◌∷◌}
use llmapi_gate_way.Common.Int.{pos}
use llmapi_gate_way.Common.Float.{Float64}

-- A rate of the configuration if it is positive, and a default otherwise.
abbrev IsRate : (fl : Float64) → fl.F → ℕ → fl.F → Type 0
IsRate fl own default rate =
    ((fl.lt (fl.of_int (pos 0)) own ≡ true) × (rate ≡ own))
    ⊎ ((fl.lt (fl.of_int (pos 0)) own ≡ false) × (rate ≡ fl.of_int (pos default)))

-- The capacities and the rates of a limiter are those of the configuration.
abbrev pub HasLimits : (fl : Float64) → Config fl.F → RateLimiterConfig fl.F → Type 0
HasLimits fl cfg limiter =
    (limiter.user_capacity ≡ cfg.rate_limit.user.capacity)
    × (limiter.app_capacity ≡ cfg.rate_limit.app.capacity)
    × (limiter.model_capacity ≡ cfg.rate_limit.model.capacity)
    × IsRate fl cfg.rate_limit.user.rate 100 limiter.user_rate
    × IsRate fl cfg.rate_limit.app.rate 500 limiter.app_rate
    × IsRate fl cfg.rate_limit.model.rate 1000 limiter.model_rate

module _ {E F : Type 0} where
  -- The servers that were started.
  abbrev pub servers_in : List (Act E F) → List (Server E)
  servers_in [] = []
  servers_in (listens server ∷ rest) = server ∷ servers_in rest
  servers_in (act ∷ rest) = servers_in rest

  abbrev pub limiters_in : List (Act E F) → List (RateLimiterConfig F)
  limiters_in [] = []
  limiters_in (makes_limiter limiter ∷ rest) = limiter ∷ limiters_in rest
  limiters_in (act ∷ rest) = limiters_in rest

  abbrev pub opened_in : List (Act E F) → List Resource
  opened_in [] = []
  opened_in (opens resource ∷ rest) = resource ∷ opened_in rest
  opened_in (act ∷ rest) = opened_in rest

  abbrev pub closed_in : List (Act E F) → List Resource
  closed_in [] = []
  closed_in (closes resource ∷ rest) = resource ∷ closed_in rest
  closed_in (act ∷ rest) = closed_in rest

  -- What was done before the server was shut down.
  abbrev pub until_shutdown : List (Act E F) → List (Act E F)
  until_shutdown [] = []
  until_shutdown (shuts_down ∷ rest) = []
  until_shutdown (act ∷ rest) = act ∷ until_shutdown rest

abbrev onto : List Resource → List Resource → List Resource
onto [] ys = ys
onto (x ∷ xs) ys = onto xs (x ∷ ys)

abbrev pub reversed : List Resource → List Resource
reversed xs = onto xs []

-- All was opened before the shutdown, and is closed once after it, the last first.
abbrev pub Tidies : {E F : Type 0} → List (Act E F) → Type 0
Tidies acts =
    (opened_in acts
      ≡ logger ∷ redis_client ∷ postgres_client ∷ replay_collector ∷ stream_cleanup ∷ [])
    × (opened_in (until_shutdown acts) ≡ opened_in acts)
    × (closed_in (until_shutdown acts) ≡ [])
    × (closed_in acts ≡ reversed (opened_in acts))

module _ (fl : Float64) {E H : Type 0} (gin : Gin E H) (handlers : Handlers H)
    (env : Environment fl.F) where
  -- The two ways of a gateway's life.
  abbrev pub Serves : Type 0
  Serves =
      (cfg : Config fl.F) × (server : Server E) × (limiter : RateLimiterConfig fl.F) × (acts : List
        (Act E fl.F))
      × (load fl env.outside "configs/config.example.yaml" ≡ done cfg)
      × (main fl gin handlers env ≡ (acts, ended_main))
      × (servers_in acts ≡ server ∷ [])
      × (limiters_in acts ≡ limiter ∷ [])
      × Tidies acts
      × IsValid fl cfg
      × HasLimits fl cfg limiter
      × Dispatches gin handlers server

  abbrev pub GivesUp : Type 0
  GivesUp =
      (acts : List (Act E fl.F)) × (main fl gin handlers env ≡ (acts, exited 1))
      × (servers_in acts ≡ [])
      × (closed_in acts ≡ [])

module _ (fl : Float64) {E H : Type 0} (gin : Gin E H) (laws : GinLaws gin) (handlers : Handlers H)
    (env : Environment fl.F) where
  abbrev connected : Process E fl.F
  connected = opening postgres_client (opening redis_client (opening logger idle))
