-- ===== src/Adapter/Types.antt =====
-- internal/adapter/adapter.go: the messages of OpenAI's API and the interface of an adapter. Bodies
-- are byte strings, written as texts. `F` is float64. A pointer is an option; a slice of structs is a
-- list, since nothing here tells a nil slice from an empty one.
use llmapi_gate_way.Common.{ℕ, String, ◌≡◌, Bool, Option, List}
use llmapi_gate_way.Common.Int.{ℤ}
use llmapi_gate_way.Common.Assoc.{Assoc}
use llmapi_gate_way.Common.Result.{Result}

pub record StreamOptions : Type 0 where
  pub include_usage : Bool

pub record Message : Type 0 where
  pub role : String
  pub content : String

pub record OpenAiRequest (F : Type 0) : Type 0 where
  pub model : String
  pub messages : List Message
  pub temperature : F
  pub max_tokens : ℤ
  pub stream : Bool
  pub stream_options : Option StreamOptions

pub record UpstreamRequest : Type 0 where
  pub url : String
  pub method : String
  pub headers : Assoc String
  pub body : String

pub record UpstreamResponse : Type 0 where
  pub status_code : ℤ
  pub headers : Assoc String
  pub body : String

pub record Choice : Type 0 where
  pub index : ℤ
  pub message : Message
  pub finish_reason : String

pub record Usage : Type 0 where
  pub prompt_tokens : ℤ
  pub completion_tokens : ℤ
  pub total_tokens : ℤ

pub record OpenAiResponse : Type 0 where
  pub id : String
  pub object : String
  pub created : ℤ
  pub model : String
  pub choices : List Choice
  pub usage : Usage

-- The anonymous struct of the field `delta`.
pub record Delta : Type 0 where
  pub role : String
  pub content : String

pub record StreamDelta : Type 0 where
  pub index : ℤ
  pub delta : Delta
  pub finish_reason : String

pub record OpenAiStreamChunk : Type 0 where
  pub id : String
  pub object : String
  pub created : ℤ
  pub model : String
  pub choices : List StreamDelta
  pub usage : Option Usage

-- What a conversion reports; the texts are those of the wrapped error of encoding/json.
pub data AdapterError : Type 0 where
  nil_request : AdapterError
  nil_response : AdapterError
  empty_chunk : AdapterError
  marshal_failed : String → AdapterError
  unmarshal_failed : String → AdapterError
  unsupported_provider : String → AdapterError

-- encoding/json for one type: the text of a value, and the value that a text decodes to.
pub record Json (A : Type 0) : Type 0 where
  pub marshal : A → Result String String
  pub unmarshal : String → Result String A

-- `json.Marshal` gives a text for the value, and that text decodes to it again.
abbrev pub Encodes : {A : Type 0} → Json A → A → Type 0
Encodes j a =
    (text : String) × (j.marshal a ≡ Result.done text) × (j.unmarshal text ≡ Result.done a)

-- The readings of the clock in one call, in the order they are taken, in nanoseconds.
pub record Clock : Type 0 where
  pub first : ℕ
  pub second_reading : ℕ
  pub third : ℕ

-- `ProtocolAdapter`. A call may change the adapter's own state `S`.
pub record ProtocolAdapter (S F : Type 0) : Type 0 where
  pub convert_request :
      Clock → S → Option (OpenAiRequest F) → S × Result AdapterError UpstreamRequest
  pub convert_response : Clock → Option UpstreamResponse → Result AdapterError OpenAiResponse
  pub convert_stream_chunk : Clock → String → Result AdapterError OpenAiStreamChunk
  pub get_provider_type : String
