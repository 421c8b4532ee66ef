-- ===== src/Logging.antt =====
-- internal/logger/logger.go: the loggers that are built. zap is a parameter: its levels `V`, its configurations
-- `C` and the loggers `L`.
use Prim.Native.String.{◌++◌ as concat}
use llmapi_gate_way.Common.Result.{Result, done, failed}
use llmapi_gate_way.Common.{String, ◌==◌, if◌then◌else◌}
use llmapi_gate_way.Common.Int.{ℤ}

pub record Zap (V C L : Type 0) : Type 0 where
  pub parse_level : String → Result String V
  pub production : C
  pub development : C
  pub set_level : V → C → C
  pub set_sampling : ℤ → ℤ → C → C
  pub build : C → Result String L

module _ {V C L : Type 0} (zap : Zap V C L) where
  abbrev pub base : String → C
  base format = if format == "json" then zap.production else zap.development

  abbrev pub built : Result String L → Result String L
  built (done l) = done l
  built (failed e) = failed (concat "failed to build logger: " e)

  abbrev pub with_level : (V → C) → Result String V → Result String L
  with_level config (done level) = built (zap.build (config level))
  with_level config (failed e) = failed (concat "invalid log level: " e)

  unfoldable pub init_logger : String → String → Result String L
  init_logger level format = with_level (λ v. zap.set_level v (base format)) (zap.parse_level level)

  unfoldable pub init_logger_with_sampling : String → String → ℤ → ℤ → Result String L
  init_logger_with_sampling level format initial thereafter =
      with_level (λ v. zap.set_sampling initial thereafter (zap.set_level v (base format)))
        (zap.parse_level level)
