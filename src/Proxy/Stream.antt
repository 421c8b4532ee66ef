-- ===== src/Proxy/Stream.antt =====
-- internal/proxy/stream.go: what the reader of a stream makes of each line, and its counts. The JSON
-- decoder is a parameter; the content of a choice is a sequence of runes.
pub mod Machine
pub mod Bound
pub mod Proper
pub mod Progress
pub mod Delivery
pub mod Exact
pub mod Cause
mod Tests
use Prim.Native.String.{◌++◌ as concat}
use Prim.Native.Char.{Char}
use llmapi_gate_way.Common.Result.{Result, done, failed}
use llmapi_gate_way.Handler.Gateway.{StreamResult}
use llmapi_gate_way.Common.{
  ℕ, zero, suc, ◌+◌, ◌-◌, ◌*◌, ◌/◌, ◌%◌, ◌≤◌, ◌<◌, min, String, ◌≡◌, refl, sym, ap, ◌∙◌, ◌≢◌, ◌↔◌,
  ◌⊎◌, inl, inr, Bool, true, false, not, ◌&&◌, ◌||◌, Option, none, some, List, [], ◌∷◌, ◌++◌, map,
  arith, ◌==◌, eq_iff, eq_refl, eq_false_of_ne, ne_of_eq_false, some_inj, ltb, leb, eqb,
  if◌then◌else◌, ltb→lt, lt→ltb, eqb_iff, Bool-cases, Option-cases, length, get_elem?, modify,
  replicate, length-append, length-modify, length-replicate, length-map, get_elem?-in_range, All,
  keep, List-cases, eqb_pos,
}
use llmapi_gate_way.Common.Int.{
  ℤ, pos, negsuc, pos_part, neg_part, sub_ℕ, ◌+ℤ◌, ◌-ℤ◌, ◌≤ℤ◌, ltb_ℤ, leb_ℤ, +ℤ_parts, -ℤ_parts,
  eq_of_parts, int_laws,
}
use llmapi_gate_way.Common.Assoc.{
  Assoc, lookup, insert, delete, lookup-insert, lookup-delete, lookup-insert_self, lookup-insert_ne,
  assoc_laws,
}
use llmapi_gate_way.Common.Time.{Time, zero_time, at, second, max_duration, saturate, since, unix}
use llmapi_gate_way.Common.Float.{Float64}

abbrev letter : Char → String
letter c = String.◌∷◌ c String.[]

-- `TrimPrefix` where `HasPrefix` holds: the rest of the text after a prefix.
unfoldable pub strip_prefix : String → String → Option String
strip_prefix String.[] s = some s
strip_prefix (String.◌∷◌ c p) String.[] = none
strip_prefix (String.◌∷◌ c p) (String.◌∷◌ d s) = elim (letter c == letter d) [
  | true ↦ strip_prefix p s
  | false ↦ none
]

-- `len([]rune(s))`
abbrev pub rune_count : String → ℕ
rune_count String.[] = 0
rune_count (String.◌∷◌ c s) = suc (rune_count s)

pub record StreamUsage : Type 0 where
  pub prompt_tokens : ℤ
  pub completion_tokens : ℤ

-- The chunk of a data line: the contents of the choices' deltas, and the usage.
pub record StreamChunk : Type 0 where
  pub choices : List String
  pub usage : Option StreamUsage

-- A line: one that is not data, the end mark, or the data of a chunk.
pub data Event : Type 0 where
  other_line : String → Event
  end_mark : Event
  chunk_data : String → Event

abbrev pub event_of_data : Option String → String → Event
event_of_data none line = other_line line
event_of_data (some payload) line = if payload == "[DONE]" then end_mark else chunk_data payload

unfoldable pub event_of : String → Event
event_of line = event_of_data (strip_prefix "data: " line) line

-- What is written to the pipe for a line.
unfoldable pub forwarded : Event → String
forwarded (other_line line) = concat line "\n"
forwarded end_mark = "data: [DONE]\n\n"
forwarded (chunk_data payload) = concat "data: " (concat payload "\n\n")

-- The tokens of one content that is not empty: a quarter of its runes, and at least one.
unfoldable pub estimate : String → ℕ
estimate content = if eqb (rune_count content / 4) 0 then 1 else rune_count content / 4

unfoldable pub add_choices : List String → StreamResult → StreamResult
add_choices [] result = result
add_choices (content ∷ rest) result = add_choices rest (
    if content == ""
    then result
    else record result { completion_tokens = result.completion_tokens +ℤ pos (estimate content) })

unfoldable pub count_chunk : StreamChunk → StreamResult → StreamResult
count_chunk chunk result = elim chunk.usage [
  | none ↦ add_choices chunk.choices result
  | some usage ↦
      if ltb_ℤ (pos 0) usage.prompt_tokens
      then record {
        prompt_tokens = usage.prompt_tokens;
        completion_tokens = usage.completion_tokens;
      }
      else add_choices chunk.choices result
]

abbrev pub count_decoded : Result String StreamChunk → StreamResult → StreamResult
count_decoded (done chunk) result = count_chunk chunk result
count_decoded (failed e) result = result

-- What a line does to the counts; `unmarshal` is `json.Unmarshal` into a chunk.
unfoldable pub count : (String → Result String StreamChunk) → Event → StreamResult → StreamResult
count unmarshal (other_line line) result = result
count unmarshal end_mark result = result
count unmarshal (chunk_data payload) result = count_decoded (unmarshal payload) result

abbrev pub no_tokens : StreamResult
no_tokens = record { prompt_tokens = pos 0; completion_tokens = pos 0 }

-- The end mark ends the stream; after another line `more` follows.
abbrev pub following {ℓ} : {A : Type ℓ} → Event → A → A → A
following (other_line line) more ended = more
following end_mark more ended = ended
following (chunk_data payload) more ended = more

-- What a whole stream is: the text of its lines and their tokens.
unfoldable pub render : List String → String
render [] = ""
render (line ∷ rest) =
    concat (forwarded (event_of line)) (following (event_of line) (render rest) "")

unfoldable pub tally :
    (String → Result String StreamChunk) → List String → StreamResult → StreamResult
tally unmarshal [] result = result
tally unmarshal (line ∷ rest) result =
    following (event_of line) (tally unmarshal rest (count unmarshal (event_of line) result))
      (count unmarshal (event_of line) result)

-- `TokenCounter`; a call holds its lock.
pub record TokenCounter : Type 0 where
  pub prompt_tokens : ℤ
  pub completion_tokens : ℤ

unfoldable pub add_tokens : ℤ → ℤ → TokenCounter → TokenCounter
add_tokens prompt completion tc = record {
  prompt_tokens = tc.prompt_tokens +ℤ prompt;
  completion_tokens = tc.completion_tokens +ℤ completion;
}

abbrev pub get_tokens : TokenCounter → ℤ × ℤ
get_tokens tc = (tc.prompt_tokens, tc.completion_tokens)
