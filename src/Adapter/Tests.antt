-- ===== src/Adapter/Tests.antt =====
-- Conversions of concrete messages. The codecs here know one text each; numbers stand for float64.
use llmapi_gate_way.Common.{ℕ, ◌*◌, ◌≡◌, refl, true, false, some, [], ◌∷◌, arith}
use llmapi_gate_way.Common.Int.{pos}
use llmapi_gate_way.Common.Time.{at, second}
use llmapi_gate_way.Common.Decimal.{decimal_within}
use llmapi_gate_way.Adapter.Factory.{Codecs}
use llmapi_gate_way.Common.Result.{done, failed}
use llmapi_gate_way.Adapter.Types.{
  OpenAiRequest, UpstreamResponse, Usage, OpenAiResponse, OpenAiStreamChunk, Json, Clock,
}
use llmapi_gate_way.Adapter.Kiro.{
  KiroTokenManager, KiroResponse, new_token_manager, is_valid, token_at, get_valid_token, text_from,
}
use llmapi_gate_way.Adapter.Kiro.Token.{calls, get_valid_token-hour}
use llmapi_gate_way.Adapter.Cursor
use llmapi_gate_way.Adapter.Antigravity

-- A codec for one value.
abbrev only : {A : Type 0} → A → Json A
only a = record { marshal = λ x. done "text"; unmarshal = λ text. done a }

abbrev request : OpenAiRequest ℕ
request = record {
  model = "gpt-4";
  messages =
      record { role = "system"; content = "be brief" }
      ∷ record { role = "user"; content = "hello" }
      ∷ [];
  temperature = 7;
  max_tokens = pos 100;
  stream = true;
  stream_options = some record { include_usage = true };
}

abbrev cursor_json : Json (Cursor.CursorRequest ℕ)
cursor_json = only (Cursor.to_cursor_request request)

abbrev antigravity_json : Json (Antigravity.AntigravityRequest ℕ)
antigravity_json = only (Antigravity.to_antigravity_request request)

abbrev used : Usage
used = record { prompt_tokens = pos 3; completion_tokens = pos 4; total_tokens = pos 7 }

abbrev response : OpenAiResponse
response = record {
  id = "r1";
  object = "chat.completion";
  created = pos 9;
  model = "gpt-4";
  choices =
      record {
        index = pos 0;
        message = record { role = "assistant"; content = "hi" };
        finish_reason = "stop";
      }
      ∷ [];
  usage = used;
}

abbrev answer : UpstreamResponse
answer = record { status_code = pos 200; headers = []; body = "text" }

abbrev chunk : OpenAiStreamChunk
chunk = record {
  id = "c1";
  object = "chat.completion.chunk";
  created = pos 9;
  model = "gpt-4";
  choices =
      record { index = pos 0; delta = record { role = ""; content = "h" }; finish_reason = "" }
      ∷ [];
  usage = some used;
}

abbrev clock_at : ℕ → Clock
clock_at n = record { first = n; second_reading = n; third = n }

-- Two calls 10 and 50 minutes after the first, at second 1000.
abbrev start : Clock
start = clock_at (1000 * second)

new-stale : is_valid start.first new_token_manager ≡ false
unfolding new_token_manager
new-stale = refl

get_valid_token-hour_example :
    ((get_valid_token start new_token_manager).1 ≡ token_at start.second_reading)
    × (get_valid_token
          (clock_at (4000 * second))
          (calls (clock_at (1600 * second) ∷ []) (get_valid_token start new_token_manager).0)
        ≡ ((get_valid_token start new_token_manager).0, token_at start.second_reading))
get_valid_token-hour_example =
    get_valid_token-hour start (clock_at (4000 * second)) new_token_manager
      (clock_at (1600 * second) ∷ []) new-stale (omega arith, tt) (omega arith)

abbrev old : KiroTokenManager
old = record { token = "kiro_token_7"; token_expiry = at (900 * second); refresh_token = "" }

token-text : token_at start.second_reading ≡ "kiro_token_1000"
unfolding decimal_within
token-text = refl

abbrev blocks : KiroResponse
blocks = record {
  id = "k1";
  type = "message";
  content =
      record { type = "text"; text = "Hel" }
      ∷ record { type = "tool"; text = "no" }
      ∷ record { type = "text"; text = "lo" }
      ∷ [];
  usage = record { input_tokens = pos 3; output_tokens = pos 4 };
}

blocks-text : text_from "" blocks.content ≡ "Hello"
unfolding text_from
blocks-text = refl

-- Codecs that decode nothing.
abbrev broken : {A : Type 0} → Json A
broken = record { marshal = λ x. failed "no"; unmarshal = λ text. failed "no" }

abbrev codecs : Codecs ℕ
codecs = record {
  cursor_requests = cursor_json;
  cursor_responses = broken;
  cursor_chunks = broken;
  kiro_requests = broken;
  kiro_responses = only blocks;
  kiro_chunks = broken;
  antigravity_requests = antigravity_json;
  antigravity_responses = broken;
  antigravity_chunks = broken;
}
