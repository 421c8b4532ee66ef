-- ===== src/Replay/Collector.antt =====
-- internal/replay/collector.go: `Collect`, which writes the record of a request to Kafka. The writer is a
-- parameter on a state. A record is written when its goroutine runs; log lines are left out.
use llmapi_gate_way.Common.Result.{Result, done, failed}
use llmapi_gate_way.Adapter.Types.{Json}
use llmapi_gate_way.Replay.Types.{RequestMetadata}
use llmapi_gate_way.Common.{String, Option, List, [], ◌∷◌}

module _ {W : Type 0} (json : Json RequestMetadata)
    (write_messages : String → String → W → W × Option String) where
  abbrev pub write_record : RequestMetadata → Result String String → W → W
  write_record metadata (done text) w = (write_messages metadata.request_id text w).0
  write_record metadata (failed e) w = w

  unfoldable pub collect : RequestMetadata → W → W
  collect metadata w = write_record metadata (json.marshal metadata) w

  -- The records of several requests, in the order in which they are written.
  unfoldable pub collect_all : List RequestMetadata → W → W
  collect_all [] w = w
  collect_all (metadata ∷ rest) w = collect_all rest (collect metadata w)
