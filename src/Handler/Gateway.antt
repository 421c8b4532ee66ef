-- ===== src/Handler/Gateway.antt =====
-- What internal/handler/chat.go asks of the other components, on one state `W`: the interface that
-- they fill. `B` is the body of a response that is not read yet.
use llmapi_gate_way.Common.{ℕ, String, Bool, Option, List}
use llmapi_gate_way.Common.Int.{ℤ}
use llmapi_gate_way.Common.Assoc.{Assoc}
use llmapi_gate_way.Common.Result.{Result}
use llmapi_gate_way.Adapter.Types.{Message, OpenAiRequest, OpenAiResponse, Clock}
use llmapi_gate_way.Adapter.Kiro.{KiroTokenManager}
use llmapi_gate_way.Adapter.Factory.{AdapterFactory}
use llmapi_gate_way.Auth.Keys.{AuthContext, AuthFailure}
use llmapi_gate_way.Breaker.Limiter.{RateLimitFailure}
use llmapi_gate_way.Quota.Types.{QuotaError}
use llmapi_gate_way.Replay.Types.{RequestMetadata}

pub record HttpRequest : Type 0 where
  pub method : String
  pub url : String
  pub headers : Assoc String
  pub body : String

pub record HttpResponse (B : Type 0) : Type 0 where
  pub status_code : ℤ
  pub body : B

-- `proxy.StreamResult`
pub record StreamResult : Type 0 where
  pub prompt_tokens : ℤ
  pub completion_tokens : ℤ

-- The JSON that a handler answers with: `gin.H{"error": …}`, or the converted response, which may
-- be nil.
pub data Reply : Type 0 where
  error_body : String → Reply
  answer_body : Option OpenAiResponse → Reply

-- net/http and encoding/json: the text of a byte slice (its base64 between quotation marks), the
-- error of `NewRequestWithContext` for a method and a URL, and the canonical form of a header's name.
pub record Http : Type 0 where
  pub encode_bytes : String → String
  pub new_request : String → String → Option String
  pub canonical : String → String

pub record Gateway (W B F : Type 0) : Type 1 where
  pub http : Http
  -- The texts of the errors.
  pub auth_message : AuthFailure → String
  pub quota_message : QuotaError → String
  -- `ShouldBindJSON` of the request's body.
  pub bind : String → Result String (OpenAiRequest F)
  pub marshal_messages : List Message → Result String String
  pub adapters : AdapterFactory F
  -- Can the response be flushed?
  pub flushes : Bool
  pub authenticate : W → String → Result AuthFailure AuthContext
  pub check_multi_dimension : W → String → String → String → ℤ → W × Option RateLimitFailure
  pub reserve_quota : W → String → String → String → ℤ → W × Result QuotaError String
  pub settle_quota : W → String → ℤ → W × Result QuotaError (Unit {0})
  pub deduct_quota : W → String → String → String → ℤ → W × Result QuotaError (Unit {0})
  -- The clock of the adapters, and the tokens that they keep.
  pub clock : W → Clock
  pub tokens : W → KiroTokenManager
  pub set_tokens : KiroTokenManager → W → W
  -- The circuit breaker, and the random source for one selection.
  pub allow_request : String → W → W × Bool
  pub record_success : String → W → W
  pub record_failure : String → W → W
  pub rand : W → W × (ℕ → ℕ)
  -- The HTTP client.
  pub send : HttpRequest → W → W × Result String (HttpResponse B)
  pub read_all : B → W → W × Result String String
  -- `ProxyStream` of a response under a session's id; none is a nil error.
  pub proxy_stream : HttpResponse B → String → W → W × (StreamResult × Option String)
  -- The collector, unless it is nil.
  pub collect : Option (RequestMetadata → W → W)
  -- `c.JSON`, and the headers of an event stream with the status 200.
  pub reply : ℕ → Reply → W → W
  pub start_stream : W → W
