-- ===== src/Adapter/Cursor/Lossless.antt =====
-- What of a message survives the conversions of internal/adapter/cursor.go.
use Prim.Native.String.{len}
use llmapi_gate_way.Common.{◌<◌, String, ◌≡◌, refl, Option, none, some, List, [], ◌∷◌, map, eqb_pos}
use llmapi_gate_way.Common.Result.{done}
use llmapi_gate_way.Adapter.Types.{
  Message, OpenAiRequest, UpstreamResponse, Choice, Usage, OpenAiResponse, StreamDelta,
  OpenAiStreamChunk, Json,
}
use llmapi_gate_way.Adapter.Cursor.{
  CursorMessage, CursorRequest, CursorChoice, CursorUsage, CursorResponse, CursorStreamDelta,
  CursorStreamChunk, to_choice, convert_response, to_stream_delta, convert_stream_chunk,
}

-- The request that an upstream server reads back, with OpenAI's names.
abbrev of_cursor_message : CursorMessage → Message
of_cursor_message m = record { role = m.role; content = m.content }

abbrev pub of_cursor_request : {F : Type 0} → CursorRequest F → OpenAiRequest F
of_cursor_request r = record {
  model = r.model;
  messages = map of_cursor_message r.messages;
  temperature = r.temperature;
  max_tokens = r.max_tokens;
  stream = r.stream;
  stream_options = none;
}

-- The answer of an upstream server that means the given OpenAI response.
abbrev of_choice : Choice → CursorChoice
of_choice c = record {
  index = c.index;
  message = record { role = c.message.role; content = c.message.content };
  finish_reason = c.finish_reason;
}

abbrev of_usage : Usage → CursorUsage
of_usage u = record {
  prompt_tokens = u.prompt_tokens;
  completion_tokens = u.completion_tokens;
  total_tokens = u.total_tokens;
}

abbrev pub of_response : OpenAiResponse → CursorResponse
of_response r = record {
  id = r.id;
  object = r.object;
  created = r.created;
  model = r.model;
  choices = map of_choice r.choices;
  usage = of_usage r.usage;
}

abbrev of_stream_delta : StreamDelta → CursorStreamDelta
of_stream_delta d = record {
  index = d.index;
  delta = record { role = d.delta.role; content = d.delta.content };
  finish_reason = d.finish_reason;
}

abbrev of_option_usage : Option Usage → Option CursorUsage
of_option_usage none = none
of_option_usage (some u) = some (of_usage u)

abbrev pub of_stream_chunk : OpenAiStreamChunk → CursorStreamChunk
of_stream_chunk c = record {
  id = c.id;
  object = c.object;
  created = c.created;
  model = c.model;
  choices = map of_stream_delta c.choices;
  usage = of_option_usage c.usage;
}

map-map_inverse {ℓ κ} :
    {A : Type ℓ} {B : Type κ} (f : A → B) (g : B → A)
    → ((a : A) → g (f a) ≡ a)
    → (xs : List A) → map g (map f xs) ≡ xs
map-map_inverse f g h [] = refl
map-map_inverse f g h (x ∷ xs) = rw (map, map, h x, map-map_inverse f g h xs)

-- The answer of a server that means an OpenAI response is converted to exactly this response.
pub convert_response-of_response :
    (json : Json CursorResponse) (resp : UpstreamResponse) (r : OpenAiResponse)
    → json.unmarshal resp.body ≡ done (of_response r)
    → convert_response json (some resp) ≡ done r
unfolding convert_response
convert_response-of_response json resp r read =
    rw (read, convert_response)
      (rw (map-map_inverse of_choice to_choice (λ c. refl) r.choices) refl)

-- A chunk that means an OpenAI chunk is converted to this chunk without its usage, which is dropped
-- also where the server reports it.
pub convert_stream_chunk-of_stream_chunk :
    (json : Json CursorStreamChunk) (chunk : String) (c : OpenAiStreamChunk)
    → 0 < len chunk
    → json.unmarshal chunk ≡ done (of_stream_chunk c)
    → convert_stream_chunk json chunk ≡ done (record c { usage = none })
unfolding convert_stream_chunk
convert_stream_chunk-of_stream_chunk json chunk c some_bytes read =
    rw (eqb_pos (len chunk) some_bytes, convert_stream_chunk, read)
      (rw (map-map_inverse of_stream_delta to_stream_delta (λ d. refl) c.choices) refl)
