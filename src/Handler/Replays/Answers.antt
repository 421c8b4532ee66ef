-- ===== src/Handler/Replays/Answers.antt =====
-- What the handlers of the replay API answer.
use Prim.Native.String.{◌++◌ as concat}
use llmapi_gate_way.Common.Result.{Result, done, failed, Result-cases, done_inj}
use llmapi_gate_way.Replay.Types.{RequestMetadata, ReplayResult}
use llmapi_gate_way.Replay.Service.{limit_of, fetch_history, ReplayRequest, ReplayReadings, Client}
use llmapi_gate_way.Replay.Run.{replay}
use llmapi_gate_way.Replay.Report.{decoded, replay-original}
use llmapi_gate_way.Handler.Replays.{
  replay_error, history_body, report_body, Parsers, time_bound, parse_filter, filter_of,
  list_history, answer_report, answer_request, start_replay,
}
use llmapi_gate_way.Handler.Replays.Wanted.{
  IsBound, IsRoom, IsWanted, FirstOf, read_messages-FirstOf, limit-IsRoom,
}
use llmapi_gate_way.Common.Time.{Time}
use llmapi_gate_way.Common.{
  Option, ℕ, String, ◌≡◌, refl, ◌≢◌, ◌⊎◌, inl, inr, List, map, ◌==◌, eq_iff, ne_of_eq_false,
  Bool-cases, length,
}
use llmapi_gate_way.Common.Float.{Float64}

-- A query parameter that should be a time and is not.
abbrev pub IsBadTime : Parsers → String → String → String → Type 0
IsBadTime ps name v message =
    (v ≢ "")
    × ((e : String) × (ps.parse_time v ≡ failed e)
        × (message ≡ concat "invalid " (concat name (concat ": " e))))

time_bound-failed :
    (ps : Parsers) (name v e : String) → time_bound ps name v ≡ failed e → IsBadTime ps name v e
unfolding time_bound
time_bound-failed ps name v e h = elim (Bool-cases (v == "")) [
  | inl empty ↦ cc (rw empty at h)
  | inr full ↦ elim (Result-cases (ps.parse_time v)) [
    | inl (t, good) ↦ cc (rw (full, good) at h)
    | inr (e', bad) ↦ (ne_of_eq_false v "" full, (e', bad, cc (rw (full, bad) at h)))
  ]
]

time_bound-IsBound :
    (ps : Parsers) (name v : String) (bound : Option Time)
    → time_bound ps name v ≡ done bound
    → IsBound ps v bound
unfolding time_bound
time_bound-IsBound ps name v bound h = elim (Bool-cases (v == "")) [
  | inl empty ↦ rw (← done_inj (rw empty at h)) ((eq_iff v "").0 empty)
  | inr full ↦ elim (Result-cases (ps.parse_time v)) [
    | inl (t, good) ↦ rw (← done_inj (rw (full, good) at h)) (ne_of_eq_false v "" full, good)
    | inr (e', bad) ↦ absurd (cc (rw (full, bad) at h))
  ]
]

-- `parseFilter` fails for the first bound that is no time, and otherwise keeps what was asked.
parse_filter-cases :
    (ps : Parsers) (query : String → String)
    → ((start : Option Time) × (end : Option Time) × (parse_filter ps query
          ≡ done (filter_of ps query start end))
        × IsBound ps (query "start_time") start
        × IsBound ps (query "end_time") end)
      ⊎ ((name : String) × (message : String) × (parse_filter ps query ≡ failed message)
          × ((name ≡ "start_time") ⊎ (name ≡ "end_time"))
          × IsBadTime ps name (query name) message)
unfolding parse_filter
parse_filter-cases ps query =
    elim (Result-cases (time_bound ps "start_time" (query "start_time"))) [
      | inr (e, bad) ↦ inr (
        "start_time",
        e,
        rw bad refl,
        inl refl,
        time_bound-failed ps "start_time" (query "start_time") e bad,
      )
      | inl (start, good) ↦ elim (Result-cases (time_bound ps "end_time" (query "end_time"))) [
        | inr (e, bad) ↦ inr (
          "end_time",
          e,
          rw (good, bad) refl,
          inr refl,
          time_bound-failed ps "end_time" (query "end_time") e bad,
        )
        | inl (end, fine) ↦ inl (
          start,
          end,
          rw (good, fine) refl,
          time_bound-IsBound ps "start_time" (query "start_time") start good,
          time_bound-IsBound ps "end_time" (query "end_time") end fine,
        )
      ]
    ]

module _ (fl : Float64) (unmarshal : String → Result String RequestMetadata) where
  -- An answer of `ListHistory`: the records, or the error of a bound.
  abbrev pub ListsHistory : Parsers → (String → String) → List String → Type 0
  ListsHistory ps query messages =
      ((start : Option Time) × (end : Option Time) × (room : ℕ) × (records : List RequestMetadata)
        × (list_history fl unmarshal ps query messages
            ≡ (200, history_body records (length records)))
        × IsBound ps (query "start_time") start
        × IsBound ps (query "end_time") end
        × IsRoom ps (query "limit") room
        × FirstOf (IsWanted start end (query "user_id") (query "model_id")) room
            (decoded unmarshal messages) records)
      ⊎ ((name : String) × (message : String) × (list_history fl unmarshal ps query messages
            ≡ (400, replay_error message))
          × ((name ≡ "start_time") ⊎ (name ≡ "end_time"))
          × IsBadTime ps name (query name) message)

  -- `ListHistory` answers 400 for a start or an end that is no time. Otherwise it answers 200 with the
  -- first records of the topic, in order, that are not before the start, not after the end, and of the
  -- user and the model that are asked for, if any, and with their count; as many as the limit, if it is
  -- from 1 to 1000, and otherwise 100. Messages that do not decode are passed over.
  pub list_history-ListsHistory :
      (ps : Parsers) (query : String → String) (messages : List String)
      → ListsHistory ps query messages
  unfolding list_history fetch_history
  list_history-ListsHistory ps query messages = elim (parse_filter-cases ps query) [
    | inr (name, message, failed_at, which, bad) ↦
        inr (name, message, rw failed_at refl, which, bad)
    | inl (start, end, read, from, until) ↦
        let filter = filter_of ps query start end in
        inl (
          start,
          end,
          limit_of filter.limit,
          fetch_history unmarshal filter messages,
          rw read refl,
          from,
          until,
          limit-IsRoom ps (query "limit"),
          read_messages-FirstOf unmarshal filter (limit_of filter.limit) messages,
        )
  ]

  module _ {S B : Type 0} (client : Client S B) where
    request_cases :
        (messages : List String) (readings : ℕ → ReplayReadings) (s : S) (req : ReplayRequest)
        → (((req.gateway_url ≡ "") ⊎ (req.api_key ≡ ""))
            × ((message : String) × (answer_request fl unmarshal client messages readings s
                    (done req)
                  ≡ (s, (400, replay_error message)))))
          ⊎ ((req.gateway_url ≢ "")
              × (req.api_key ≢ "")
              × (answer_request fl unmarshal client messages readings s (done req)
                  ≡ answer_report fl unmarshal client (
                    (replay fl client unmarshal req messages readings s).0,
                    done (replay fl client unmarshal req messages readings s).1,
                  )))
    request_cases messages readings s req = elim (Bool-cases (req.gateway_url == "")) [
      | inl no_url ↦
          inl (
            inl ((eq_iff req.gateway_url "").0 no_url),
            ("gateway_url is required", rw no_url refl),
          )
      | inr url ↦ elim (Bool-cases (req.api_key == "")) [
        | inl no_key ↦
            inl (
              inr ((eq_iff req.api_key "").0 no_key),
              ("api_key is required", rw (url, no_key) refl),
            )
        | inr key ↦ inr (
          ne_of_eq_false req.gateway_url "" url,
          ne_of_eq_false req.api_key "" key,
          rw (url, key) refl,
        )
      ]
    ]

    -- An answer of `StartReplay`: a refusal without a request to the gateway, or the report.
    abbrev pub StartsReplay :
        (String → Result String ReplayRequest)
        → String
        → List String
        → (ℕ → ReplayReadings)
        → S
        → Type 0
    StartsReplay bind body messages readings s =
        ((message : String) × (start_replay fl unmarshal client bind body messages readings s
            ≡ (s, (400, replay_error message)))
          × (((e : String) × (bind body ≡ failed e))
              ⊎ ((req : ReplayRequest) × (bind body ≡ done req)
                  × ((req.gateway_url ≡ "") ⊎ (req.api_key ≡ "")))))
        ⊎ ((req : ReplayRequest) × (s' : S) × (results : List (ReplayResult fl.F)) × (bind body
              ≡ done req)
            × (req.gateway_url ≢ "")
            × (req.api_key ≢ "")
            × (start_replay fl unmarshal client bind body messages readings s
                ≡ (s', (200, report_body results (length results))))
            × (map (λ r. r.original) results ≡ fetch_history unmarshal req.filter messages))

    -- `StartReplay` answers 400 and sends nothing for a body that does not decode, or that lacks the
    -- gateway's URL or the API key. Otherwise it answers 200 with an entry for each record that the
    -- filter selects, in their order, and their count, whatever the gateway answers.
    pub start_replay-StartsReplay :
        (bind : String → Result String ReplayRequest) (body : String) (messages : List String)
        (readings : ℕ → ReplayReadings) (s : S)
        → StartsReplay bind body messages readings s
    unfolding start_replay
    start_replay-StartsReplay bind body messages readings s = elim (Result-cases (bind body)) [
      | inr (e, bad) ↦ inl (concat "invalid request: " e, rw bad refl, inl (e, bad))
      | inl (req, good) ↦ elim (request_cases messages readings s req) [
        | inl (lacks, (message, answer)) ↦ inl (message, rw good answer, inr (req, good, lacks))
        | inr (url, key, answer) ↦ inr (
          req,
          (replay fl client unmarshal req messages readings s).0,
          (replay fl client unmarshal req messages readings s).1,
          good,
          url,
          key,
          rw good answer,
          replay-original fl client unmarshal req messages readings s,
        )
      ]
    ]
