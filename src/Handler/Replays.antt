-- ===== src/Handler/Replays.antt =====
-- internal/handler/replay.go: the handlers of the replay API over the replay service. `time.Parse`,
-- `fmt.Sscanf` and the decoding of a request's body are parameters. Log lines are left out.
pub mod Wanted
pub mod Answers
mod Tests
use Prim.Native.String.{◌++◌ as concat}
use llmapi_gate_way.Common.Result.{Result, done, failed, ◌>>=◌}
use llmapi_gate_way.Replay.Types.{RequestMetadata, HistoryFilter, ReplayResult}
use llmapi_gate_way.Replay.Service.{fetch_history, ReplayRequest, ReplayReadings, Client}
use llmapi_gate_way.Replay.Run.{replay}
use llmapi_gate_way.Common.{
  ℕ, zero, suc, ◌+◌, ◌-◌, ◌*◌, ◌/◌, ◌%◌, ◌≤◌, ◌<◌, min, String, ◌≡◌, refl, sym, ap, ◌∙◌, ◌≢◌, ◌↔◌,
  ◌⊎◌, inl, inr, Bool, true, false, not, ◌&&◌, ◌||◌, Option, none, some, List, [], ◌∷◌, ◌++◌, map,
  arith, ◌==◌, eq_iff, eq_refl, eq_false_of_ne, ne_of_eq_false, some_inj, ltb, leb, eqb,
  if◌then◌else◌, ltb→lt, lt→ltb, eqb_iff, Bool-cases, Option-cases, length, get_elem?, modify,
  replicate, length-append, length-modify, length-replicate, length-map, get_elem?-in_range, All,
  keep, List-cases, eqb_pos,
}
use llmapi_gate_way.Common.Int.{
  ℤ, pos, negsuc, pos_part, neg_part, sub_ℕ, ◌+ℤ◌, ◌-ℤ◌, ◌≤ℤ◌, ltb_ℤ, leb_ℤ, +ℤ_parts, -ℤ_parts,
  eq_of_parts, int_laws,
}
use llmapi_gate_way.Common.Assoc.{
  Assoc, lookup, insert, delete, lookup-insert, lookup-delete, lookup-insert_self, lookup-insert_ne,
  assoc_laws,
}
use llmapi_gate_way.Common.Time.{Time, zero_time, at, second, max_duration, saturate, since, unix}
use llmapi_gate_way.Common.Float.{Float64}

-- What a handler answers with: an error, records or results with their count.
pub data ReplayReply (F : Type 0) : Type 0 where
  replay_error : String → ReplayReply F
  history_body : List RequestMetadata → ℕ → ReplayReply F
  report_body : List (ReplayResult F) → ℕ → ReplayReply F

-- `time.Parse(time.RFC3339, v)`, and the number that `fmt.Sscanf(v, "%d", &n)` reads.
pub record Parsers : Type 0 where
  pub parse_time : String → Result String Time
  pub scan_int : String → Result String ℤ

abbrev named_error : String → Result String Time → Result String (Option Time)
named_error name (done t) = done (some t)
named_error name (failed e) = failed (concat "invalid " (concat name (concat ": " e)))

-- A bound of the history, from the query parameter of this name.
unfoldable pub time_bound : Parsers → String → String → Result String (Option Time)
time_bound ps name v = if v == "" then done none else named_error name (ps.parse_time v)

abbrev positive : Result String ℤ → ℤ
positive (done n) = if ltb_ℤ (pos 0) n then n else pos 0
positive (failed e) = pos 0

unfoldable pub limit_param : Parsers → String → ℤ
limit_param ps v = if v == "" then pos 0 else positive (ps.scan_int v)

abbrev pub filter_of : Parsers → (String → String) → Option Time → Option Time → HistoryFilter
filter_of ps query start end = record {
  start_time = start;
  end_time = end;
  user_id = query "user_id";
  model_id = query "model_id";
  limit = limit_param ps (query "limit");
}

-- `parseFilter`; `query` gives the query parameters, the empty text where one is missing.
unfoldable pub parse_filter : Parsers → (String → String) → Result String HistoryFilter
parse_filter ps query = time_bound ps "start_time" (query "start_time") >>= (λ start.
    time_bound ps "end_time" (query "end_time") >>= (λ end. done (filter_of ps query start end)))

module _ (fl : Float64) (unmarshal : String → Result String RequestMetadata) where
  abbrev pub answer_history : Result String (List RequestMetadata) → ℕ × ReplayReply fl.F
  answer_history (done records) = (200, history_body records (length records))
  answer_history (failed e) = (500, replay_error "failed to fetch history")

  abbrev pub answer_filter : List String → Result String HistoryFilter → ℕ × ReplayReply fl.F
  answer_filter messages (done filter) =
      answer_history (done (fetch_history unmarshal filter messages))
  answer_filter messages (failed e) = (400, replay_error e)

  -- `ListHistory`; `FetchHistory` gives no error.
  unfoldable pub list_history : Parsers → (String → String) → List String → ℕ × ReplayReply fl.F
  list_history ps query messages = answer_filter messages (parse_filter ps query)

  module _ {S B : Type 0} (client : Client S B) where
    abbrev pub answer_report :
        S × Result String (List (ReplayResult fl.F)) → S × (ℕ × ReplayReply fl.F)
    answer_report (s, done results) = (s, (200, report_body results (length results)))
    answer_report (s, failed e) = (s, (500, replay_error (concat "replay failed: " e)))

    abbrev pub answer_request :
        List String
        → (ℕ → ReplayReadings)
        → S
        → Result String ReplayRequest
        → S × (ℕ × ReplayReply fl.F)
    answer_request messages readings s (failed e) =
        (s, (400, replay_error (concat "invalid request: " e)))
    answer_request messages readings s (done req) =
        if req.gateway_url == ""
        then (s, (400, replay_error "gateway_url is required"))
        else if req.api_key == ""
        then (s, (400, replay_error "api_key is required"))
        else (let (s', results) = replay fl client unmarshal req messages readings s in
            answer_report (s', done results))

    -- `StartReplay`; `bind` is `ShouldBindJSON` of the body, and `Replay` gives no error.
    unfoldable pub start_replay :
        (String → Result String ReplayRequest)
        → String
        → List String
        → (ℕ → ReplayReadings)
        → S
        → S × (ℕ × ReplayReply fl.F)
    start_replay bind body messages readings s = answer_request messages readings s (bind body)
