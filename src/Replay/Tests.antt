-- ===== src/Replay/Tests.antt =====
-- Runs of the history, the report and the similarity.
use llmapi_gate_way.Common.{ℕ, String, ◌≡◌, refl, none, List, [], ◌∷◌, ◌==◌, if◌then◌else◌}
use llmapi_gate_way.Common.Int.{pos}
use llmapi_gate_way.Common.Time.{zero_time}
use llmapi_gate_way.Common.Fixed.{fixed}
use llmapi_gate_way.Common.Result.{Result, done, failed}
use llmapi_gate_way.Replay.Types.{RequestMetadata, HistoryFilter}
use llmapi_gate_way.Replay.Similarity.{add, has, trigrams_from, common, ratio, content_similarity}
use llmapi_gate_way.Replay.Service.{
  matches_filter, limit_of, read_messages, fetch_history, ReplayRequest, ReplayReadings, Client,
}
use llmapi_gate_way.Replay.Run.{failure_of}

abbrev record_of : String → RequestMetadata
record_of user = record (failure_of "") {
  request_id = "q";
  user_id = user;
  model_id = "m";
  prompt = "hello";
  response = "hello there";
}

abbrev decode : String → Result String RequestMetadata
decode text = if text == "{" then failed "unexpected end of JSON input" else done (record_of text)

abbrev of_ada : HistoryFilter
of_ada = record {
  start_time = none;
  end_time = none;
  user_id = "ada";
  model_id = "";
  limit = pos 2;
}

abbrev topic : List String
topic = "ada" ∷ "{" ∷ "bob" ∷ "ada" ∷ "ada" ∷ []

two_of_ada : fetch_history decode of_ada topic ≡ record_of "ada" ∷ record_of "ada" ∷ []
unfolding fetch_history limit_of read_messages matches_filter
two_of_ada = refl

-- A gateway that cannot be reached.
abbrev offline : Client (Unit {0}) String
offline = record {
  unmarshal_messages = λ t. failed "not JSON";
  marshal_payload = λ model messages. done "{}";
  new_request = λ method url. none;
  send = λ req s. (s, failed "connection refused");
  read_all = λ b s. (s, done b);
  unmarshal_answer = λ t. failed "not JSON";
}

abbrev again : ReplayRequest
again = record {
  filter = of_ada;
  target_model = "";
  gateway_url = "http://gateway/";
  api_key = "sk-0a";
}

abbrev readings : ℕ → ReplayReadings
readings i = record { latency = pos 1; timestamp = zero_time; replayed_at = zero_time }

-- One trigram of three is common.
one_third : content_similarity fixed "abcd" "abce" ≡ 333333
unfolding content_similarity trigrams_from add has common ratio
one_third = refl
