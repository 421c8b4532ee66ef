-- ===== src/Replay/Types.antt =====
-- internal/replay/types.go; `F` is float64.
use llmapi_gate_way.Common.{String, Option}
use llmapi_gate_way.Common.Int.{ℤ}
use llmapi_gate_way.Common.Assoc.{Assoc}
use llmapi_gate_way.Common.Time.{Time}

pub record ReplayUsage : Type 0 where
  pub prompt_tokens : ℤ
  pub completion_tokens : ℤ
  pub total_tokens : ℤ

pub record RequestMetadata : Type 0 where
  pub request_id : String
  pub timestamp : Time
  pub user_id : String
  pub app_id : String
  pub model_id : String
  pub provider : String
  pub prompt : String
  pub response : String
  pub token_usage : ReplayUsage
  pub latency : ℤ
  pub status_code : ℤ
  pub error : String
  pub metadata : Assoc String

pub record HistoryFilter : Type 0 where
  pub start_time : Option Time
  pub end_time : Option Time
  pub user_id : String
  pub model_id : String
  pub limit : ℤ

pub record ComparisonMetric (F : Type 0) : Type 0 where
  pub original : ℤ
  pub replay : ℤ
  pub diff : ℤ
  pub diff_pct : F

pub record ComparisonResult (F : Type 0) : Type 0 where
  pub token_diff : ComparisonMetric F
  pub latency_diff : ComparisonMetric F
  pub content_similarity : F

pub record ReplayResult (F : Type 0) : Type 0 where
  pub request_id : String
  pub original : RequestMetadata
  pub replay : RequestMetadata
  pub comparison : Option (ComparisonResult F)
  pub replayed_at : Time
