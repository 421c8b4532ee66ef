-- ===== src/Handler/Chat/Trace.antt =====
-- A gateway that also writes down what `Handle` of internal/handler/chat.go asks of it, and the
-- shape of such a log, which has the newest event first.
use llmapi_gate_way.Common.{
  ℕ, String, ◌≡◌, ◌⊎◌, Bool, true, false, Option, none, some, List, [], ◌∷◌,
}
use llmapi_gate_way.Common.Int.{ℤ}
use llmapi_gate_way.Common.Result.{Result, done, failed}
use llmapi_gate_way.Adapter.Types.{OpenAiRequest, OpenAiResponse}
use llmapi_gate_way.Auth.Keys.{AuthContext, AuthFailure}
use llmapi_gate_way.Quota.Types.{QuotaError}
use llmapi_gate_way.Replay.Types.{RequestMetadata}
use llmapi_gate_way.Handler.Gateway.{HttpRequest, Reply, error_body, answer_body, Gateway}
use llmapi_gate_way.Handler.Chat.{Ending, returned, crashed}

pub data Event : Type 0 where
  -- The limits were checked for a user, an app and a model: was the request let through?
  checked : String → String → String → Bool → Event
  -- A reservation was asked for; the id, if there is one.
  reserved : String → String → String → Option String → Event
  -- The stream's headers were sent.
  started : Event
  -- A request went to a provider.
  sent : HttpRequest → Event
  -- A settlement and a deduction were asked for; did they succeed?
  settlement : String → ℤ → Bool → Event
  deducted : String → String → String → ℤ → Bool → Event
  replied : ℕ → Reply → Event

abbrev pub passes {ℓ} : {A : Type ℓ} → Option A → Bool
passes none = true
passes (some a) = false

abbrev pub id_of : Result QuotaError String → Option String
id_of (failed e) = none
id_of (done id) = some id

abbrev pub went_well : Result QuotaError (Unit {0}) → Bool
went_well (failed e) = false
went_well (done u) = true

abbrev pub lifted :
    {W : Type 0}
    → Option (RequestMetadata → W → W)
    → Option (RequestMetadata → W × List Event → W × List Event)
lifted none = none
lifted (some collect) = some (λ metadata t. (collect metadata t.0, t.1))

abbrev pub traced : {W B F : Type 0} → Gateway W B F → Gateway (W × List Event) B F
traced g = record {
  http = g.http;
  auth_message = g.auth_message;
  quota_message = g.quota_message;
  bind = g.bind;
  marshal_messages = g.marshal_messages;
  adapters = g.adapters;
  flushes = g.flushes;
  authenticate = λ t header. g.authenticate t.0 header;
  check_multi_dimension = λ t user app model n.
      let (w, e) = g.check_multi_dimension t.0 user app model n in
      ((w, checked user app model (passes e) ∷ t.1), e);
  reserve_quota = λ t user app model n.
      let (w, r) = g.reserve_quota t.0 user app model n in
      ((w, reserved user app model (id_of r) ∷ t.1), r);
  settle_quota = λ t id n.
      let (w, r) = g.settle_quota t.0 id n in ((w, settlement id n (went_well r) ∷ t.1), r);
  deduct_quota = λ t user app model n.
      let (w, r) = g.deduct_quota t.0 user app model n in
      ((w, deducted user app model n (went_well r) ∷ t.1), r);
  clock = λ t. g.clock t.0;
  tokens = λ t. g.tokens t.0;
  set_tokens = λ m t. (g.set_tokens m t.0, t.1);
  allow_request = λ key t. let (w, b) = g.allow_request key t.0 in ((w, t.1), b);
  record_success = λ key t. (g.record_success key t.0, t.1);
  record_failure = λ key t. (g.record_failure key t.0, t.1);
  rand = λ t. let (w, r) = g.rand t.0 in ((w, t.1), r);
  send = λ req t. let (w, r) = g.send req t.0 in ((w, sent req ∷ t.1), r);
  read_all = λ b t. let (w, r) = g.read_all b t.0 in ((w, t.1), r);
  proxy_stream = λ resp id t. let (w, r) = g.proxy_stream resp id t.0 in ((w, t.1), r);
  collect = lifted g.collect;
  reply = λ code body t. (g.reply code body t.0, replied code body ∷ t.1);
  start_stream = λ t. (g.start_stream t.0, started ∷ t.1);
}

-- The log grew by requests to providers.
pub data Sends (start : List Event) : List Event → Type 0 where
  none_yet : Sends start start
  one_more : {log : List Event} (req : HttpRequest) → Sends start log → Sends start (sent req ∷ log)

-- It grew by one at least.
pub data Sent (start : List Event) : List Event → Type 0 where
  last_sent : {log : List Event} (req : HttpRequest) → Sends start log → Sent start (sent req ∷ log)

-- What may be asked of the gateway in one request, by what authentication and the decoder said.
pub data Handled {F : Type 0} (auth : Result AuthFailure AuthContext)
    (bound : Result String (OpenAiRequest F)) : Ending → List Event → Type 0 where
  unauthenticated :
      (e : AuthFailure) (text : String)
      → auth ≡ failed e
      → Handled auth bound returned (replied 401 (error_body text) ∷ [])
  malformed :
      (ctx : AuthContext) (e text : String)
      → auth ≡ done ctx
      → bound ≡ failed e
      → Handled auth bound returned (replied 400 (error_body text) ∷ [])
  limited :
      (ctx : AuthContext) (req : OpenAiRequest F) (text : String)
      → auth ≡ done ctx
      → bound ≡ done req
      → Handled auth bound returned
          (replied 429 (error_body text) ∷ checked ctx.user_id ctx.app_id req.model false ∷ [])
  unrouted :
      (ctx : AuthContext) (req : OpenAiRequest F) (code : ℕ) (text : String)
      → auth ≡ done ctx
      → bound ≡ done req
      → (code ≡ 400) ⊎ (code ≡ 500)
      → Handled auth bound returned
          (replied code (error_body text) ∷ checked ctx.user_id ctx.app_id req.model true ∷ [])
  unreachable :
      (ctx : AuthContext) (req : OpenAiRequest F) (text : String) {log : List Event}
      → auth ≡ done ctx
      → bound ≡ done req
      → req.stream ≡ false
      → Sends (checked ctx.user_id ctx.app_id req.model true ∷ []) log
      → Handled auth bound returned (replied 502 (error_body text) ∷ log)
  answered :
      (ctx : AuthContext) (req : OpenAiRequest F) (r : OpenAiResponse) (charged : Bool)
      {log : List Event}
      → auth ≡ done ctx
      → bound ≡ done req
      → req.stream ≡ false
      → Sent (checked ctx.user_id ctx.app_id req.model true ∷ []) log
      → Handled auth bound returned (
          replied 200 (answer_body (some r))
          ∷ deducted ctx.user_id ctx.app_id req.model r.usage.total_tokens charged
          ∷ log)
  unreserved :
      (ctx : AuthContext) (req : OpenAiRequest F) (text : String)
      → auth ≡ done ctx
      → bound ≡ done req
      → req.stream ≡ true
      → Handled auth bound returned (
          replied 402 (error_body text)
          ∷ reserved ctx.user_id ctx.app_id req.model none
          ∷ checked ctx.user_id ctx.app_id req.model true
          ∷ [])
  unflushable :
      (ctx : AuthContext) (req : OpenAiRequest F) (id text : String)
      → auth ≡ done ctx
      → bound ≡ done req
      → req.stream ≡ true
      → Handled auth bound returned (
          replied 500 (error_body text)
          ∷ started
          ∷ reserved ctx.user_id ctx.app_id req.model (some id)
          ∷ checked ctx.user_id ctx.app_id req.model true
          ∷ [])
  streamed_through :
      (ctx : AuthContext) (req : OpenAiRequest F) (id : String) (n : ℤ) (charged : Bool)
      {log : List Event}
      → auth ≡ done ctx
      → bound ≡ done req
      → req.stream ≡ true
      → Sends
          (started
            ∷ reserved ctx.user_id ctx.app_id req.model (some id)
            ∷ checked ctx.user_id ctx.app_id req.model true
            ∷ [])
          log
      → Handled auth bound returned (settlement id n charged ∷ log)
  -- A panic before or during failover.
  crashed_request :
      (ctx : AuthContext) (req : OpenAiRequest F) {log : List Event}
      → auth ≡ done ctx
      → bound ≡ done req
      → Sends (checked ctx.user_id ctx.app_id req.model true ∷ []) log
      → Handled auth bound crashed log
  crashed_stream :
      (ctx : AuthContext) (req : OpenAiRequest F) (id : String) {log : List Event}
      → auth ≡ done ctx
      → bound ≡ done req
      → req.stream ≡ true
      → Sends
          (started
            ∷ reserved ctx.user_id ctx.app_id req.model (some id)
            ∷ checked ctx.user_id ctx.app_id req.model true
            ∷ [])
          log
      → Handled auth bound crashed log
