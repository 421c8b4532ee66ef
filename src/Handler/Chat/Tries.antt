-- ===== src/Handler/Chat/Tries.antt =====
-- What the functions that internal/handler/chat.go gives to failover ask of the gateway.
use llmapi_gate_way.Common.{
  String, ◌≡◌, refl, inl, inr, Bool, true, false, Option, none, some, List, Bool-cases,
  Option-cases,
}
use llmapi_gate_way.Common.Int.{ℤ}
use llmapi_gate_way.Common.Result.{Result, done, failed}
use llmapi_gate_way.Adapter.Types.{OpenAiRequest, OpenAiResponse, AdapterError, ProtocolAdapter}
use llmapi_gate_way.Adapter.Kiro.{KiroTokenManager}
use llmapi_gate_way.Replay.Types.{RequestMetadata}
use llmapi_gate_way.Router.Types.{ApiKeyConfig}
use llmapi_gate_way.Router.Manager.{RouteManager}
use llmapi_gate_way.Router.Failover.{try_key, attempt, succeeded, execute_with_failover}
use llmapi_gate_way.Router.Failover.Keeps.{Kept, execute_with_failover-Kept}
use llmapi_gate_way.Handler.Gateway.{HttpRequest, HttpResponse, StreamResult, Gateway}
use llmapi_gate_way.Handler.Upstream.{
  stream_result, UpstreamError, prepare, converted, read_body, check_status, receive, dispatch,
  try_request, receive_stream, dispatch_stream, try_stream, world_of, session_id,
}
use llmapi_gate_way.Handler.Chat.{Arrival, collected}
use llmapi_gate_way.Handler.Chat.Trace.{Event, traced, Sends, one_more, Sent, last_sent}

Sent-Sends : {start log : List Event} → Sent start log → Sends start log
Sent-Sends (last_sent req h) = one_more req h

module _ {W B F : Type 0} (g : Gateway W B F) where
  abbrev pub Logged : Type 0
  Logged = W × List Event

  -- Failover with a function whose tries keep `Holds`, which reads the log and the variable only.
  module _ {X : Type 0} (run : String → Logged × X → (Logged × X) × Option UpstreamError)
      (Holds : Bool → List Event → X → Type 0)
      (runs : (key : String) (t : Logged × X)
        → Holds false t.0.1 t.1
        → Holds
            (succeeded (world_of (traced g) run) (some (run key t).1))
            (run key t).0.0.1
            (run key t).0.1) where
    abbrev pub Keeps : Bool → Logged × X → Type 0
    Keeps b t = Holds b t.0.1 t.1

    try_key-Keeps :
        (k : ApiKeyConfig) (t : Logged × X)
        → Keeps false t
        → Keeps
            (succeeded (world_of (traced g) run) (try_key (world_of (traced g) run) k t).1)
            (try_key (world_of (traced g) run) k t).0
    unfolding try_key attempt
    try_key-Keeps k ((w, log), x) h = elim (Bool-cases (g.allow_request k.key w).1) [
      | inr refused ↦ rw refused h
      | inl let_in ↦
          let t : Logged × X = (((g.allow_request k.key w).0, log), x) in
          elim (Option-cases (run k.key t).1) [
            | inl fine ↦ rw (let_in, attempt, fine) (rw fine at (runs k.key t h))
            | inr (e, bad) ↦ rw (let_in, attempt, bad) (rw bad at (runs k.key t h))
          ]
    ]

    pub failover-Kept :
        (model_id : String) (m : RouteManager) (t : Logged × X)
        → Keeps false t
        → Kept
            (world_of (traced g) run)
            m.rules
            Keeps
            (execute_with_failover (world_of (traced g) run) model_id (m, t))
    failover-Kept model_id m t h =
        execute_with_failover-Kept (world_of (traced g) run) m.rules Keeps
          (λ k s c e. try_key-Keeps k s e) (λ s e. e) model_id m t refl h

  pub collected-log :
      (arrival : Arrival) (metadata : RequestMetadata) (t : Logged)
      → (collected (traced g) arrival metadata t).1 ≡ t.1
  unfolding collected
  collected-log arrival metadata t = elim (Option-cases g.collect) [
    | inl without ↦ rw (without, collected) refl
    | inr (collect, there) ↦ rw (there, collected) refl
  ]

  module _ (start : List Event) where
    -- While `handleNonStream` tries: after a success a request was sent, and its response is held.
    abbrev pub Answers : Bool → List Event → Option OpenAiResponse → Type 0
    Answers false log held = Sends start log
    Answers true log held = Sent start log × ((r : OpenAiResponse) × (held ≡ some r))

    abbrev Tried : (Logged × Option OpenAiResponse) × Option UpstreamError → Type 0
    Tried (((w, log), held), none) = Answers true log held
    Tried (((w, log), held), some e) = Answers false log held

    converted-Tried :
        (w : W) (log : List Event) (c : Result AdapterError OpenAiResponse)
        → Sent start log
        → Tried (converted (traced g) (w, log) c)
    converted-Tried w log (failed e) h = Sent-Sends h
    converted-Tried w log (done r) h = (h, (r, refl))

    read_body-Tried :
        (adpt : ProtocolAdapter KiroTokenManager F) (status : ℤ) (held : Option OpenAiResponse)
        (w : W) (log : List Event) (body : Result String String)
        → Sent start log
        → Tried (read_body (traced g) adpt status held (w, log) body)
    read_body-Tried adpt status held w log (failed e) h = Sent-Sends h
    read_body-Tried adpt status held w log (done body) h = converted-Tried w log _ h

    check_status-Tried :
        (adpt : ProtocolAdapter KiroTokenManager F) (held : Option OpenAiResponse) (w : W)
        (log : List Event) (resp : HttpResponse B) (bad : Bool)
        → Sent start log
        → Tried (check_status (traced g) adpt held (w, log) resp bad)
    check_status-Tried adpt held w log resp true h = Sent-Sends h
    check_status-Tried adpt held w log resp false h =
        read_body-Tried adpt resp.status_code held _ log (g.read_all resp.body w).1 h

    receive-Tried :
        (adpt : ProtocolAdapter KiroTokenManager F) (held : Option OpenAiResponse) (w : W)
        (log : List Event) (answer_ : Result String (HttpResponse B))
        → Sent start log
        → Tried (receive (traced g) adpt held (w, log) answer_)
    receive-Tried adpt held w log (failed e) h = Sent-Sends h
    receive-Tried adpt held w log (done resp) h = check_status-Tried adpt held w log resp _ h

    dispatch-Tried :
        (adpt : ProtocolAdapter KiroTokenManager F) (held : Option OpenAiResponse) (w : W)
        (log : List Event) (prepared : Result UpstreamError HttpRequest)
        → Sends start log
        → Tried (dispatch (traced g) adpt held (w, log) prepared)
    dispatch-Tried adpt held w log (failed e) h = h
    dispatch-Tried adpt held w log (done req) h =
        receive-Tried adpt held _ _ (g.send req w).1 (last_sent req h)

    succeeded-Tried :
        (r : (Logged × Option OpenAiResponse) × Option UpstreamError)
        (run : String
          → Logged × Option OpenAiResponse
          → (Logged × Option OpenAiResponse) × Option UpstreamError)
        → Tried r
        → Answers (succeeded (world_of (traced g) run) (some r.1)) r.0.0.1 r.0.1
    succeeded-Tried (t, none) run h = h
    succeeded-Tried (t, some e) run h = h

    pub try_request-runs :
        (adpt : ProtocolAdapter KiroTokenManager F) (req : OpenAiRequest F) (key : String)
        (t : Logged × Option OpenAiResponse)
        → Answers false t.0.1 t.1
        → let r = try_request (traced g) adpt req key t in
          Answers
            (succeeded (world_of (traced g) (try_request (traced g) adpt req)) (some r.1))
            r.0.0.1
            r.0.1
    unfolding try_request prepare
    try_request-runs adpt req key ((w, log), held) h =
        succeeded-Tried (try_request (traced g) adpt req key ((w, log), held))
          (try_request (traced g) adpt req) (dispatch-Tried adpt held _ log _ h)

    -- While `handleStream` tries.
    abbrev pub Streams : Bool → List Event → StreamResult → Type 0
    Streams tried log result = Sends start log

    streamed-Sends :
        (log : List Event) (r : W × (StreamResult × Option String))
        → Sends start log
        → Sends start (stream_result (traced g) ((r.0, log), r.1)).0.0.1
    streamed-Sends log (w, (result, none)) h = h
    streamed-Sends log (w, (result, some e)) h = h

    receive_stream-Sends :
        (session : String) (held : StreamResult) (w : W) (log : List Event)
        (answer_ : Result String (HttpResponse B))
        → Sends start log
        → Sends start (receive_stream (traced g) session held (w, log) answer_).0.0.1
    receive_stream-Sends session held w log (failed e) h = h
    receive_stream-Sends session held w log (done resp) h =
        streamed-Sends log (g.proxy_stream resp session w) h

    dispatch_stream-Sends :
        (session : String) (held : StreamResult) (w : W) (log : List Event)
        (prepared : Result UpstreamError HttpRequest)
        → Sends start log
        → Sends start (dispatch_stream (traced g) session held (w, log) prepared).0.0.1
    dispatch_stream-Sends session held w log (failed e) h = h
    dispatch_stream-Sends session held w log (done req) h =
        receive_stream-Sends session held _ _ (g.send req w).1 (one_more req h)

    pub try_stream-Sends :
        (adpt : ProtocolAdapter KiroTokenManager F) (req : OpenAiRequest F)
        (request_id key : String) (t : Logged × StreamResult)
        → Sends start t.0.1
        → Sends start (try_stream (traced g) adpt req request_id key t).0.0.1
    unfolding try_stream prepare
    try_stream-Sends adpt req request_id key ((w, log), held) h =
        dispatch_stream-Sends (session_id request_id key) held _ log _ h
