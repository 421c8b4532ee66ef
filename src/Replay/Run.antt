-- ===== src/Replay/Run.antt =====
-- `replayOne` and `Replay` of internal/replay/service.go.
use Prim.Native.String.{◌++◌ as concat}
use llmapi_gate_way.Common.{ℕ, zero, suc, String, none, some, List, [], ◌∷◌}
use llmapi_gate_way.Common.Int.{ℤ, pos}
use llmapi_gate_way.Common.Time.{zero_time}
use llmapi_gate_way.Common.Float.{Float64}
use llmapi_gate_way.Common.Result.{Result, done, failed}
use llmapi_gate_way.Handler.Gateway.{HttpResponse}
use llmapi_gate_way.Replay.Types.{RequestMetadata, ReplayResult}
use llmapi_gate_way.Replay.Service.{
  fetch_history, ReplayRequest, ReplayReadings, Client, compare, model_of, request_of, replayed,
}

-- The record of a replay that failed.
abbrev pub failure_of : String → RequestMetadata
failure_of error = record {
  request_id = "";
  timestamp = zero_time;
  user_id = "";
  app_id = "";
  model_id = "";
  provider = "";
  prompt = "";
  response = "";
  token_usage = record { prompt_tokens = pos 0; completion_tokens = pos 0; total_tokens = pos 0 };
  latency = pos 0;
  status_code = pos 0;
  error = error;
  metadata = [];
}

module _ (fl : Float64) {S B : Type 0} (client : Client S B) where
  -- The steps of `replayOne`, from the last one on.
  abbrev pub read_replay :
      RequestMetadata
      → ReplayRequest
      → ReplayReadings
      → ℤ
      → S × Result String String
      → S × Result String (ReplayResult fl.F)
  read_replay original req readings status (s, failed e) =
      (s, failed (concat "read replay response: " e))
  read_replay original req readings status (s, done body) =
      let meta =
        replayed client original (model_of client original req) readings status
          (client.unmarshal_answer body) in
      (
        s,
        done (record {
          request_id = original.request_id;
          original = original;
          replay = meta;
          comparison = some (compare fl original meta);
          replayed_at = readings.replayed_at;
        }),
      )

  abbrev pub receive_replay :
      RequestMetadata
      → ReplayRequest
      → ReplayReadings
      → S × Result String (HttpResponse B)
      → S × Result String (ReplayResult fl.F)
  receive_replay original req readings (s, failed e) =
      (s, failed (concat "replay request failed: " e))
  receive_replay original req readings (s, done resp) =
      read_replay original req readings resp.status_code (client.read_all resp.body s)

  unfoldable pub replay_one :
      RequestMetadata → ReplayRequest → ReplayReadings → S → S × Result String (ReplayResult fl.F)
  replay_one original req readings s = elim (request_of client original req) [
    | failed e ↦ (s, failed e)
    | done http_req ↦ receive_replay original req readings (client.send http_req s)
  ]

  -- The entry of the report for one record.
  abbrev pub report_entry :
      RequestMetadata → ReplayReadings → Result String (ReplayResult fl.F) → ReplayResult fl.F
  report_entry original readings (done result) = result
  report_entry original readings (failed e) = record {
    request_id = original.request_id;
    original = original;
    replay = failure_of e;
    comparison = none;
    replayed_at = readings.replayed_at;
  }

  -- The loop of `Replay`; each record has its own readings.
  unfoldable pub replay_all :
      ReplayRequest → List RequestMetadata → (ℕ → ReplayReadings) → S → S × List (ReplayResult fl.F)
  replay_all req [] readings s = (s, [])
  replay_all req (original ∷ rest) readings s =
      let (s', result) = replay_one original req (readings zero) s in
      let (s'', results) = replay_all req rest (λ i. readings (suc i)) s' in
      (s'', report_entry original (readings zero) result ∷ results)

  -- `Replay`; reading the history gives no error.
  unfoldable pub replay :
      (String → Result String RequestMetadata)
      → ReplayRequest
      → List String
      → (ℕ → ReplayReadings)
      → S
      → S × List (ReplayResult fl.F)
  replay unmarshal req messages readings s =
      replay_all req (fetch_history unmarshal req.filter messages) readings s
