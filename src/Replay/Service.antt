-- ===== src/Replay/Service.antt =====
-- `FetchHistory`, `Replay` and `compare` of internal/replay/service.go. The messages that the Kafka
-- reader gives before an error or the deadline are an argument, and so are the HTTP client, which
-- works on a state, encoding/json, and the readings of the clock.
use Prim.Native.String.{◌++◌ as concat}
use llmapi_gate_way.Common.{
  ℕ, zero, suc, String, Bool, true, false, not, ◌&&◌, ◌||◌, Option, none, some, List, [], ◌∷◌, ◌==◌,
  ltb, if◌then◌else◌,
}
use llmapi_gate_way.Common.Int.{ℤ, pos, pos_part, ◌-ℤ◌, ltb_ℤ, leb_ℤ}
use llmapi_gate_way.Common.Assoc.{Assoc}
use llmapi_gate_way.Common.Time.{Time, zero_time, at}
use llmapi_gate_way.Common.Float.{Float64}
use llmapi_gate_way.Common.Result.{Result, done, failed}
use llmapi_gate_way.Common.Decimal.{int_text}
use llmapi_gate_way.Handler.Gateway.{HttpRequest, HttpResponse}
use llmapi_gate_way.Replay.Types.{
  ReplayUsage, RequestMetadata, HistoryFilter, ComparisonMetric, ComparisonResult,
}
use llmapi_gate_way.Replay.Similarity.{content_similarity}

-- `t.Before(u)`
abbrev pub is_before : Time → Time → Bool
is_before zero_time zero_time = false
is_before zero_time (at u) = true
is_before (at t) zero_time = false
is_before (at t) (at u) = ltb t u

abbrev pub starts_after : Option Time → Time → Bool
starts_after none t = false
starts_after (some start) t = is_before t start

abbrev pub ends_before : Option Time → Time → Bool
ends_before none t = false
ends_before (some end) t = is_before end t

-- `matchesFilter`
unfoldable pub matches_filter : RequestMetadata → HistoryFilter → Bool
matches_filter meta f =
    if starts_after f.start_time meta.timestamp
    then false
    else if ends_before f.end_time meta.timestamp
    then false
    else if not (f.user_id == "") && not (meta.user_id == f.user_id)
    then false
    else if not (f.model_id == "") && not (meta.model_id == f.model_id)
    then false
    else true

-- `limit`, which is 100 unless it is from 1 to 1000.
unfoldable pub limit_of : ℤ → ℕ
limit_of limit = if leb_ℤ limit (pos 0) || ltb_ℤ (pos 1000) limit then 100 else pos_part limit

-- The loop of `FetchHistory`, with the room that is left in the results.
unfoldable pub read_messages :
    (String → Result String RequestMetadata)
    → HistoryFilter
    → ℕ
    → List String
    → List RequestMetadata
read_messages unmarshal filter zero messages = []
read_messages unmarshal filter (suc room) [] = []
read_messages unmarshal filter (suc room) (message ∷ rest) = elim (unmarshal message) [
  | failed e ↦ read_messages unmarshal filter (suc room) rest
  | done meta ↦ elim (matches_filter meta filter) [
    | false ↦ read_messages unmarshal filter (suc room) rest
    | true ↦ meta ∷ read_messages unmarshal filter room rest
  ]
]

unfoldable pub fetch_history :
    (String → Result String RequestMetadata) → HistoryFilter → List String → List RequestMetadata
fetch_history unmarshal filter messages =
    read_messages unmarshal filter (limit_of filter.limit) messages

pub record ReplayRequest : Type 0 where
  pub filter : HistoryFilter
  pub target_model : String
  pub gateway_url : String
  pub api_key : String

-- `strings.TrimRight(s, "/")`
unfoldable pub trim_slashes : String → String
trim_slashes String.[] = ""
trim_slashes (String.◌∷◌ c s) =
    let rest = trim_slashes s in
    if (rest == "") && (String.◌∷◌ c String.[] == "/") then "" else String.◌∷◌ c rest

-- The contents of the choices and the usage in a response.
pub record ReplayAnswer : Type 0 where
  pub contents : List String
  pub usage : ReplayUsage

-- A message of the payload: its keys and values.
abbrev pub Fields : Type 0
Fields = Assoc String

-- The readings of the clock for one record: the milliseconds of the request, and two times.
pub record ReplayReadings : Type 0 where
  pub latency : ℤ
  pub timestamp : Time
  pub replayed_at : Time

-- The client on its state, with what the program uses of encoding/json and net/http.
pub record Client (S B : Type 0) : Type 0 where
  pub unmarshal_messages : String → Result String (List Fields)
  -- The payload: the model and the messages, with `stream` false.
  pub marshal_payload : String → List Fields → Result String String
  pub new_request : String → String → Option String
  pub send : HttpRequest → S → S × Result String (HttpResponse B)
  pub read_all : B → S → S × Result String String
  pub unmarshal_answer : String → Result String ReplayAnswer

unfoldable pub percent : (fl : Float64) → ℤ → ℤ → fl.F
percent fl diff original =
    if ltb_ℤ (pos 0) original
    then fl.mul (fl.div (fl.of_int diff) (fl.of_int original)) (fl.of_int (pos 100))
    else fl.of_int (pos 0)

unfoldable pub metric : (fl : Float64) → ℤ → ℤ → ComparisonMetric fl.F
metric fl original replay = record {
  original = original;
  replay = replay;
  diff = original -ℤ replay;
  diff_pct = percent fl (original -ℤ replay) original;
}

unfoldable pub compare : (fl : Float64) → RequestMetadata → RequestMetadata → ComparisonResult fl.F
compare fl orig replay = record {
  token_diff = metric fl orig.token_usage.total_tokens replay.token_usage.total_tokens;
  latency_diff = metric fl orig.latency replay.latency;
  content_similarity = content_similarity fl orig.response replay.response;
}

abbrev pub user_message : String → List Fields
user_message content = (("role", "user") ∷ ("content", content) ∷ []) ∷ []

module _ {S B : Type 0} (client : Client S B) where
  -- The messages of the replayed request.
  unfoldable pub messages_of : String → List Fields
  messages_of prompt = elim (prompt == "") [
    | true ↦ user_message "(replay: original prompt not captured)"
    | false ↦ elim (client.unmarshal_messages prompt) [
      | done messages ↦ messages
      | failed e ↦ user_message prompt
    ]
  ]

  abbrev pub model_of : RequestMetadata → ReplayRequest → String
  model_of original req = if req.target_model == "" then original.model_id else req.target_model

  -- The request, or the error of making it.
  unfoldable pub request_of : RequestMetadata → ReplayRequest → Result String HttpRequest
  request_of original req =
      elim (client.marshal_payload (model_of original req) (messages_of original.prompt)) [
        | failed e ↦ failed e
        | done body ↦
            (let url = concat (trim_slashes req.gateway_url) "/v1/chat/completions" in
              elim (client.new_request "POST" url) [
                | some e ↦ failed e
                | none ↦ done (record {
                  method = "POST";
                  url = url;
                  headers =
                      ("Content-Type", "application/json")
                      ∷ ("Authorization", concat "Bearer " req.api_key)
                      ∷ [];
                  body = body;
                })
              ])
      ]

  abbrev pub first_text : List String → String
  first_text [] = ""
  first_text (t ∷ ts) = t

  abbrev pub no_usage : ReplayUsage
  no_usage = record { prompt_tokens = pos 0; completion_tokens = pos 0; total_tokens = pos 0 }

  -- The record of the replayed request.
  abbrev pub replayed :
      RequestMetadata → String → ReplayReadings → ℤ → Result String ReplayAnswer → RequestMetadata
  replayed original model readings status answer = record {
    request_id = concat original.request_id "_replay";
    timestamp = readings.timestamp;
    user_id = original.user_id;
    app_id = original.app_id;
    model_id = model;
    provider = "";
    prompt = "";
    response = elim answer [ done a ↦ first_text a.contents | failed e ↦ "" ];
    token_usage = elim answer [ done a ↦ a.usage | failed e ↦ no_usage ];
    latency = readings.latency;
    status_code = status;
    error = elim answer [ done a ↦ "" | failed e ↦ concat "upstream status " (int_text status) ];
    metadata = [];
  }
