-- ===== src/Quota/Types.antt =====
-- internal/quota/types.go. An int64 is an integer.
use llmapi_gate_way.Common.{String, Option, List}
use llmapi_gate_way.Common.Int.{ℤ}
use llmapi_gate_way.Common.Time.{Time}

abbrev pub quota_level_user : String
quota_level_user = "user"

abbrev pub quota_level_app : String
quota_level_app = "app"

abbrev pub quota_level_model : String
quota_level_model = "model"

abbrev pub reservation_status_pending : String
reservation_status_pending = "pending"

abbrev pub reservation_status_settled : String
reservation_status_settled = "settled"

abbrev pub reservation_status_cancelled : String
reservation_status_cancelled = "cancelled"

pub record QuotaNode : Type 0 where
  pub level : String
  pub identifier : String
  pub total : ℤ
  pub used : ℤ
  pub reserved : ℤ
  pub children : List String
  pub updated_at : Time

pub record QuotaReservation : Type 0 where
  pub id : String
  pub user_id : String
  pub app_id : String
  pub model_id : String
  pub reserved_tokens : ℤ
  pub actual_tokens : ℤ
  pub status : String
  pub created_at : Time
  pub settled_at : Option Time

pub record TokenUsage : Type 0 where
  pub prompt_tokens : ℤ
  pub completion_tokens : ℤ
  pub total_tokens : ℤ

pub data QuotaError : Type 0 where
  redis : String → QuotaError
  quota_not_found : String → QuotaError
  reservation_not_found : String → QuotaError
  json : String → QuotaError
