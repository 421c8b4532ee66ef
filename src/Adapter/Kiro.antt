-- ===== src/Adapter/Kiro.antt =====
-- internal/adapter/kiro.go: its answers are lists of typed blocks, and its requests carry a token that
-- the adapter keeps for an hour.
pub mod Token
pub mod Blocks
use Prim.Native.String.{len, ◌++◌ as concat}
use llmapi_gate_way.Common.{
  ℕ, zero, suc, ◌+◌, ◌-◌, ◌*◌, ◌/◌, ◌%◌, ◌≤◌, ◌<◌, min, String, ◌≡◌, refl, sym, ap, ◌∙◌, ◌≢◌, ◌↔◌,
  ◌⊎◌, inl, inr, Bool, true, false, not, ◌&&◌, ◌||◌, Option, none, some, List, [], ◌∷◌, ◌++◌, map,
  arith, ◌==◌, eq_iff, eq_refl, eq_false_of_ne, ltb, leb, eqb, if◌then◌else◌, ltb→lt, lt→ltb,
  eqb_iff, Bool-cases, Option-cases, length, get_elem?, modify, replicate, length-append,
  length-modify, length-replicate, length-map, get_elem?-in_range, All, keep, List-cases, eqb_pos,
}
use llmapi_gate_way.Common.Int.{
  ℤ, pos, negsuc, pos_part, neg_part, sub_ℕ, ◌+ℤ◌, ◌-ℤ◌, ◌≤ℤ◌, ltb_ℤ, leb_ℤ, +ℤ_parts, -ℤ_parts,
  eq_of_parts, int_laws,
}
use llmapi_gate_way.Common.Assoc.{
  Assoc, lookup, insert, delete, lookup-insert, lookup-delete, lookup-insert_self, lookup-insert_ne,
  assoc_laws,
}
use llmapi_gate_way.Common.Time.{Time, zero_time, at, second, max_duration, saturate, since, unix}
use llmapi_gate_way.Common.Float.{Float64}
use llmapi_gate_way.Common.Decimal.{decimal}
use llmapi_gate_way.Common.Result.{Result, done, failed, Result-cases}
use llmapi_gate_way.Adapter.Types.{
  StreamOptions, Message, OpenAiRequest, UpstreamRequest, UpstreamResponse, Choice, Usage,
  OpenAiResponse, Delta, StreamDelta, OpenAiStreamChunk, AdapterError, nil_request, nil_response,
  empty_chunk, marshal_failed, unmarshal_failed, unsupported_provider, Json, Encodes, Clock,
  ProtocolAdapter,
}
use llmapi_gate_way.Router.Types.{provider_kiro}

pub record KiroTokenManager : Type 0 where
  pub token : String
  pub token_expiry : Time
  pub refresh_token : String

pub record KiroMessage : Type 0 where
  pub role : String
  pub content : String

pub record KiroConfig (F : Type 0) : Type 0 where
  pub max_tokens : ℤ
  pub temperature : F

pub record KiroRequest (F : Type 0) : Type 0 where
  pub model : String
  pub messages : List KiroMessage
  pub config : KiroConfig F
  pub stream : Bool

pub record KiroContent : Type 0 where
  pub type : String
  pub text : String

pub record KiroUsage : Type 0 where
  pub input_tokens : ℤ
  pub output_tokens : ℤ

pub record KiroResponse : Type 0 where
  pub id : String
  pub type : String
  pub content : List KiroContent
  pub usage : KiroUsage

pub record KiroDelta : Type 0 where
  pub type : String
  pub text : String

pub record KiroStreamChunk : Type 0 where
  pub type : String
  pub delta : Option KiroDelta
  pub usage : Option KiroUsage

-- The manager that `NewKiroAdapter` makes.
unfoldable pub new_token_manager : KiroTokenManager
new_token_manager = record { token = ""; token_expiry = zero_time; refresh_token = "" }

-- `now.Before(t)`
abbrev pub before : ℕ → Time → Bool
before now zero_time = false
before now (at t) = ltb now t

-- The token that is made at a time.
abbrev pub token_at : ℕ → String
token_at now = concat "kiro_token_" (decimal (unix now))

abbrev pub is_valid : ℕ → KiroTokenManager → Bool
is_valid now tm = not (tm.token == "") && before now tm.token_expiry

-- `GetValidToken`; its error is always nil. The clock is read for the test, for the token and for
-- the expiry.
unfoldable pub get_valid_token : Clock → KiroTokenManager → KiroTokenManager × String
get_valid_token clock tm = if is_valid clock.first tm then (tm, tm.token) else (
  record tm {
    token = token_at clock.second_reading;
    token_expiry = at (clock.third + 3600 * second);
  },
  token_at clock.second_reading,
)

abbrev pub to_kiro_message : Message → KiroMessage
to_kiro_message m = record { role = m.role; content = m.content }

abbrev pub to_kiro_request : {F : Type 0} → OpenAiRequest F → KiroRequest F
to_kiro_request req = record {
  model = req.model;
  messages = map to_kiro_message req.messages;
  config = record { max_tokens = req.max_tokens; temperature = req.temperature };
  stream = req.stream;
}

unfoldable pub convert_request :
    {F : Type 0}
    → Json (KiroRequest F)
    → Clock
    → KiroTokenManager
    → Option (OpenAiRequest F)
    → KiroTokenManager × Result AdapterError UpstreamRequest
convert_request json clock tm none = (tm, failed nil_request)
convert_request json clock tm (some req) =
    let (tm', token) = get_valid_token clock tm in
    (
      tm',
      elim (json.marshal (to_kiro_request req)) [
        | failed e ↦ failed (marshal_failed e)
        | done text ↦ done (record {
          url = "https://api.kiro.ai/v1/messages";
          method = "POST";
          headers =
              ("Content-Type", "application/json")
              ∷ ("Authorization", concat "Bearer " token)
              ∷ ("X-Kiro-Region", "us-east-1")
              ∷ [];
          body = text;
        })
      ],
    )

-- The loop that collects the text, with the text collected so far.
unfoldable pub text_from : String → List KiroContent → String
text_from content [] = content
text_from content (c ∷ cs) =
    let added = text_from (concat content c.text) cs in
    let passed = text_from content cs in if c.type == "text" then added else passed

-- The answer that is made of a decoded one.
abbrev pub of_kiro_response : Clock → KiroResponse → OpenAiResponse
of_kiro_response clock r = record {
  id = r.id;
  object = "chat.completion";
  created = pos (unix clock.first);
  model = "kiro";
  choices =
      record {
        index = pos 0;
        message = record { role = "assistant"; content = text_from "" r.content };
        finish_reason = "stop";
      }
      ∷ [];
  usage = record {
    prompt_tokens = r.usage.input_tokens;
    completion_tokens = r.usage.output_tokens;
    total_tokens = r.usage.input_tokens +ℤ r.usage.output_tokens;
  };
}

unfoldable pub convert_response :
    Json KiroResponse → Clock → Option UpstreamResponse → Result AdapterError OpenAiResponse
convert_response json clock none = failed nil_response
convert_response json clock (some resp) = elim (json.unmarshal resp.body) [
  | failed e ↦ failed (unmarshal_failed e)
  | done r ↦ done (of_kiro_response clock r)
]

-- The choices of a chunk: one for a text delta, otherwise none.
unfoldable pub delta_choices : Option KiroDelta → List StreamDelta
delta_choices none = []
delta_choices (some d) =
    if d.type == "text_delta"
    then record {
      index = pos 0;
      delta = record { role = ""; content = d.text };
      finish_reason = "";
    }
      ∷ []
    else []

unfoldable pub convert_stream_chunk :
    Json KiroStreamChunk → Clock → String → Result AdapterError OpenAiStreamChunk
convert_stream_chunk json clock chunk = elim (eqb (len chunk) 0) [
  | true ↦ failed empty_chunk
  | false ↦ elim (json.unmarshal chunk) [
    | failed e ↦ failed (unmarshal_failed e)
    | done c ↦ done (record {
      id = concat "kiro-" (decimal clock.first);
      object = "chat.completion.chunk";
      created = pos (unix clock.second_reading);
      model = "kiro";
      choices = delta_choices c.delta;
      usage = none;
    })
  ]
]

abbrev pub kiro_adapter :
    {F : Type 0}
    → Json (KiroRequest F)
    → Json KiroResponse
    → Json KiroStreamChunk
    → ProtocolAdapter KiroTokenManager F
kiro_adapter requests responses chunks = record {
  convert_request = λ clock tm req. convert_request requests clock tm req;
  convert_response = λ clock resp. convert_response responses clock resp;
  convert_stream_chunk = λ clock chunk. convert_stream_chunk chunks clock chunk;
  get_provider_type = provider_kiro;
}
