-- ===== src/Handler/Replays/Tests.antt =====
-- Requests of the replay API: a query with a bound that is no time, one for the records of a user, and
-- a replay without and with its parameters.
use llmapi_gate_way.Common.Fixed.{fixed}
use llmapi_gate_way.Common.Result.{Result, done, failed}
use llmapi_gate_way.Replay.Types.{RequestMetadata}
use llmapi_gate_way.Replay.Service.{
  matches_filter, limit_of, read_messages, fetch_history, ReplayRequest, ReplayReadings, Client,
}
use llmapi_gate_way.Replay.Run.{failure_of}
use llmapi_gate_way.Handler.Replays.{
  replay_error, history_body, Parsers, time_bound, limit_param, parse_filter, list_history,
  start_replay,
}
use llmapi_gate_way.Handler.Replays.Answers.{
  ListsHistory, list_history-ListsHistory, StartsReplay, start_replay-StartsReplay,
}
use llmapi_gate_way.Common.{ℕ, String, ◌≡◌, refl, none, List, [], ◌∷◌, ◌==◌, if◌then◌else◌}
use llmapi_gate_way.Common.Int.{pos}
use llmapi_gate_way.Common.Time.{at}

abbrev parsers : Parsers
parsers = record {
  parse_time = λ t. if t == "noon" then done (at 43200) else failed "cannot parse";
  scan_int = λ t. if t == "2" then done (pos 2) else failed "expected integer";
}

abbrev record_of : String → RequestMetadata
record_of user = record (failure_of "") { request_id = "q"; user_id = user; timestamp = at 50000 }

abbrev decode : String → Result String RequestMetadata
decode text = if text == "{" then failed "unexpected end of JSON input" else done (record_of text)

abbrev topic : List String
topic = "ada" ∷ "{" ∷ "bob" ∷ "ada" ∷ "ada" ∷ []

abbrev query_of : String → String → String → String
query_of start limit name =
    if name == "start_time"
    then start
    else if name == "limit"
    then limit
    else if name == "user_id"
    then "ada"
    else ""

two_since_noon :
    list_history fixed decode parsers (query_of "noon" "2") topic
    ≡ (200, history_body (record_of "ada" ∷ record_of "ada" ∷ []) 2)
unfolding list_history parse_filter time_bound limit_param fetch_history limit_of read_messages
    matches_filter
two_since_noon = refl

bad_start :
    list_history fixed decode parsers (query_of "dusk" "") topic
    ≡ (400, replay_error "invalid start_time: cannot parse")
unfolding list_history parse_filter time_bound
bad_start = refl

-- The client of an unreachable gateway.
abbrev offline : Client (Unit {0}) String
offline = record {
  unmarshal_messages = λ t. failed "not JSON";
  marshal_payload = λ model messages. done "{}";
  new_request = λ method url. none;
  send = λ req s. (s, failed "connection refused");
  read_all = λ b s. (s, done b);
  unmarshal_answer = λ t. failed "not JSON";
}

list_history-ListsHistory_example : ListsHistory fixed decode parsers (query_of "noon" "2") topic
list_history-ListsHistory_example =
    list_history-ListsHistory fixed decode parsers (query_of "noon" "2") topic

abbrev request : ReplayRequest
request = record {
  filter = record {
    start_time = none;
    end_time = none;
    user_id = "ada";
    model_id = "";
    limit = pos 0;
  };
  target_model = "";
  gateway_url = "http://gateway/";
  api_key = "sk-0a";
}

abbrev bind : String → Result String ReplayRequest
bind body = if body == "{}" then done (record request { api_key = "" }) else done request

abbrev readings : ℕ → ReplayReadings
readings i = record { latency = pos 1; timestamp = at 50000; replayed_at = at 50000 }

without_key :
    start_replay fixed decode offline bind "{}" topic readings tt
    ≡ (tt, (400, replay_error "api_key is required"))
unfolding start_replay
without_key = refl

start_replay-StartsReplay_example : StartsReplay fixed decode offline bind "{r}" topic readings tt
start_replay-StartsReplay_example =
    start_replay-StartsReplay fixed decode offline bind "{r}" topic readings tt
