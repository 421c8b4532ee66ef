-- ===== src/Adapter/Cursor.antt =====
-- internal/adapter/cursor.go: its API has the shape of OpenAI's.
pub mod Lossless
use Prim.Native.String.{len}
use llmapi_gate_way.Common.{
  ℕ, zero, suc, ◌+◌, ◌-◌, ◌*◌, ◌/◌, ◌%◌, ◌≤◌, ◌<◌, min, String, ◌≡◌, refl, sym, ap, ◌∙◌, ◌≢◌, ◌↔◌,
  ◌⊎◌, inl, inr, Bool, true, false, not, ◌&&◌, ◌||◌, Option, none, some, List, [], ◌∷◌, ◌++◌, map,
  arith, ◌==◌, eq_iff, eq_refl, eq_false_of_ne, ltb, leb, eqb, if◌then◌else◌, ltb→lt, lt→ltb,
  eqb_iff, Bool-cases, Option-cases, length, get_elem?, modify, replicate, length-append,
  length-modify, length-replicate, length-map, get_elem?-in_range, All, keep, List-cases, eqb_pos,
}
use llmapi_gate_way.Common.Int.{
  ℤ, pos, negsuc, pos_part, neg_part, sub_ℕ, ◌+ℤ◌, ◌-ℤ◌, ◌≤ℤ◌, ltb_ℤ, leb_ℤ, +ℤ_parts, -ℤ_parts,
  eq_of_parts, int_laws,
}
use llmapi_gate_way.Common.Assoc.{
  Assoc, lookup, insert, delete, lookup-insert, lookup-delete, lookup-insert_self, lookup-insert_ne,
  assoc_laws,
}
use llmapi_gate_way.Common.Time.{Time, zero_time, at, second, max_duration, saturate, since, unix}
use llmapi_gate_way.Common.Float.{Float64}
use llmapi_gate_way.Common.Result.{Result, done, failed, Result-cases}
use llmapi_gate_way.Adapter.Types.{
  StreamOptions, Message, OpenAiRequest, UpstreamRequest, UpstreamResponse, Choice, Usage,
  OpenAiResponse, Delta, StreamDelta, OpenAiStreamChunk, AdapterError, nil_request, nil_response,
  empty_chunk, marshal_failed, unmarshal_failed, unsupported_provider, Json, Encodes, Clock,
  ProtocolAdapter,
}
use llmapi_gate_way.Router.Types.{provider_cursor}

pub record CursorMessage : Type 0 where
  pub role : String
  pub content : String

pub record CursorRequest (F : Type 0) : Type 0 where
  pub model : String
  pub messages : List CursorMessage
  pub temperature : F
  pub max_tokens : ℤ
  pub stream : Bool

pub record CursorChoice : Type 0 where
  pub index : ℤ
  pub message : CursorMessage
  pub finish_reason : String

pub record CursorUsage : Type 0 where
  pub prompt_tokens : ℤ
  pub completion_tokens : ℤ
  pub total_tokens : ℤ

pub record CursorResponse : Type 0 where
  pub id : String
  pub object : String
  pub created : ℤ
  pub model : String
  pub choices : List CursorChoice
  pub usage : CursorUsage

pub record CursorDelta : Type 0 where
  pub role : String
  pub content : String

pub record CursorStreamDelta : Type 0 where
  pub index : ℤ
  pub delta : CursorDelta
  pub finish_reason : String

pub record CursorStreamChunk : Type 0 where
  pub id : String
  pub object : String
  pub created : ℤ
  pub model : String
  pub choices : List CursorStreamDelta
  pub usage : Option CursorUsage

abbrev pub to_cursor_message : Message → CursorMessage
to_cursor_message m = record { role = m.role; content = m.content }

abbrev pub to_cursor_request : {F : Type 0} → OpenAiRequest F → CursorRequest F
to_cursor_request req = record {
  model = req.model;
  messages = map to_cursor_message req.messages;
  temperature = req.temperature;
  max_tokens = req.max_tokens;
  stream = req.stream;
}

unfoldable pub convert_request :
    {F : Type 0}
    → Json (CursorRequest F)
    → Option (OpenAiRequest F)
    → Result AdapterError UpstreamRequest
convert_request json none = failed nil_request
convert_request json (some req) = elim (json.marshal (to_cursor_request req)) [
  | failed e ↦ failed (marshal_failed e)
  | done text ↦ done (record {
    url = "https://api.cursor.sh/v1/chat/completions";
    method = "POST";
    headers = ("Content-Type", "application/json") ∷ [];
    body = text;
  })
]

abbrev pub to_choice : CursorChoice → Choice
to_choice c = record {
  index = c.index;
  message = record { role = c.message.role; content = c.message.content };
  finish_reason = c.finish_reason;
}

unfoldable pub convert_response :
    Json CursorResponse → Option UpstreamResponse → Result AdapterError OpenAiResponse
convert_response json none = failed nil_response
convert_response json (some resp) = elim (json.unmarshal resp.body) [
  | failed e ↦ failed (unmarshal_failed e)
  | done r ↦ done (record {
    id = r.id;
    object = r.object;
    created = r.created;
    model = r.model;
    choices = map to_choice r.choices;
    usage = record {
      prompt_tokens = r.usage.prompt_tokens;
      completion_tokens = r.usage.completion_tokens;
      total_tokens = r.usage.total_tokens;
    };
  })
]

abbrev pub to_stream_delta : CursorStreamDelta → StreamDelta
to_stream_delta c = record {
  index = c.index;
  delta = record { role = c.delta.role; content = c.delta.content };
  finish_reason = c.finish_reason;
}

unfoldable pub convert_stream_chunk :
    Json CursorStreamChunk → String → Result AdapterError OpenAiStreamChunk
convert_stream_chunk json chunk = elim (eqb (len chunk) 0) [
  | true ↦ failed empty_chunk
  | false ↦ elim (json.unmarshal chunk) [
    | failed e ↦ failed (unmarshal_failed e)
    | done c ↦ done (record {
      id = c.id;
      object = c.object;
      created = c.created;
      model = c.model;
      choices = map to_stream_delta c.choices;
      usage = none;
    })
  ]
]

-- The adapter keeps no state of its own; the state `S` is passed through.
abbrev pub cursor_adapter :
    {S F : Type 0}
    → Json (CursorRequest F)
    → Json CursorResponse
    → Json CursorStreamChunk
    → ProtocolAdapter S F
cursor_adapter requests responses chunks = record {
  convert_request = λ clock s req. (s, convert_request requests req);
  convert_response = λ clock resp. convert_response responses resp;
  convert_stream_chunk = λ clock chunk. convert_stream_chunk chunks chunk;
  get_provider_type = provider_cursor;
}
