-- ===== src/Config/Tests.antt =====
-- A configuration file that loads, with thresholds as fixed-point numbers of six decimals.
use llmapi_gate_way.Common.{ℕ, String, ◌≡◌, refl}
use llmapi_gate_way.Common.Int.{pos}
use llmapi_gate_way.Common.Fixed.{fixed}
use llmapi_gate_way.Common.Result.{done}
use llmapi_gate_way.Config.Types.{Config}
use llmapi_gate_way.Config.Load.{
  Outside, override, override_int, override_brokers, apply_env_overrides, validate, load,
}
use llmapi_gate_way.Config.Sample.{config, outside}
use llmapi_gate_way.Config.Valid.{IsValid, load-IsValid}

abbrev empty : Outside ℕ
empty = record outside { getenv = λ name. "" }

loads : load fixed outside "config.yaml" ≡ done (apply_env_overrides outside config)
unfolding load validate apply_env_overrides override override_int override_brokers
loads = refl

port-overridden : (apply_env_overrides outside config).server.port ≡ pos 9000
unfolding apply_env_overrides override override_int override_brokers
port-overridden = refl

load-IsValid_example :
    IsValid fixed (apply_env_overrides outside config)
    × ((text : String) × (parsed : Config ℕ) × (outside.read_file "config.yaml" ≡ done text)
        × (outside.parse_yaml text ≡ done parsed)
        × (apply_env_overrides outside config ≡ apply_env_overrides outside parsed))
load-IsValid_example =
    load-IsValid fixed outside "config.yaml" (apply_env_overrides outside config) loads
