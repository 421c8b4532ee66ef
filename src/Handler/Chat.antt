-- ===== src/Handler/Chat.antt =====
-- internal/handler/chat.go: `Handle`, `handleNonStream` and `handleStream`, with what they do to the
-- route manager and the gateway's state. Counters and log lines are left out.
pub mod Trace
pub mod Tries
pub mod Protocol
mod Tests
use Prim.Native.String.{◌++◌ as concat}
use llmapi_gate_way.Common.{
  ℕ, zero, suc, ◌+◌, ◌-◌, ◌*◌, ◌/◌, ◌%◌, ◌≤◌, ◌<◌, min, String, ◌≡◌, refl, sym, ap, ◌∙◌, ◌≢◌, ◌↔◌,
  ◌⊎◌, inl, inr, Bool, true, false, not, ◌&&◌, ◌||◌, Option, none, some, List, [], ◌∷◌, ◌++◌, map,
  arith, ◌==◌, eq_iff, eq_refl, eq_false_of_ne, ne_of_eq_false, some_inj, ltb, leb, eqb,
  if◌then◌else◌, ltb→lt, lt→ltb, eqb_iff, Bool-cases, Option-cases, length, get_elem?, modify,
  replicate, length-append, length-modify, length-replicate, length-map, get_elem?-in_range, All,
  keep, List-cases, eqb_pos,
}
use llmapi_gate_way.Common.Int.{
  ℤ, pos, negsuc, pos_part, neg_part, sub_ℕ, ◌+ℤ◌, ◌-ℤ◌, ◌≤ℤ◌, ltb_ℤ, leb_ℤ, +ℤ_parts, -ℤ_parts,
  eq_of_parts, int_laws,
}
use llmapi_gate_way.Common.Assoc.{
  Assoc, lookup, insert, delete, lookup-insert, lookup-delete, lookup-insert_self, lookup-insert_ne,
  assoc_laws,
}
use llmapi_gate_way.Common.Time.{Time, zero_time, at, second, max_duration, saturate, since, unix}
use llmapi_gate_way.Common.Float.{Float64}
use llmapi_gate_way.Common.Result.{Result, done, failed}
use llmapi_gate_way.Adapter.Types.{
  StreamOptions, OpenAiRequest, OpenAiResponse, Choice, Message, ProtocolAdapter,
}
use llmapi_gate_way.Adapter.Kiro.{KiroTokenManager}
use llmapi_gate_way.Adapter.Factory.{get_adapter}
use llmapi_gate_way.Auth.Keys.{AuthContext}
use llmapi_gate_way.Quota.Manager.{bytes}
use llmapi_gate_way.Replay.Types.{ReplayUsage, RequestMetadata}
use llmapi_gate_way.Router.Types.{RouteRule, Outcome, ok, err, panicked, ◌>>=◌, deref}
use llmapi_gate_way.Router.Manager.{RouteManager, get_rule}
use llmapi_gate_way.Router.Failover.{FailoverError, execute_with_failover}
use llmapi_gate_way.Handler.Gateway.{StreamResult, Reply, error_body, answer_body, Gateway}
use llmapi_gate_way.Handler.Upstream.{UpstreamError, try_request, try_stream, world_of}

-- How a handler ends: it returns, or it panics.
pub data Ending : Type 0 where
  returned : Ending
  crashed : Ending

-- The id of the request, when it began, and the milliseconds until its record is made.
pub record Arrival : Type 0 where
  pub request_id : String
  pub start_time : Time
  pub latency : ℤ

abbrev pub first_content : List Choice → String
first_content [] = ""
first_content (choice ∷ rest) = choice.message.content

module _ {W B F : Type 0} (g : Gateway W B F) (arrival : Arrival) where
  -- The record of a request that the collector gets.
  unfoldable pub metadata_of :
      AuthContext → OpenAiRequest F → String → String → ReplayUsage → RequestMetadata
  metadata_of auth_ctx req provider response usage = record {
    request_id = arrival.request_id;
    timestamp = arrival.start_time;
    user_id = auth_ctx.user_id;
    app_id = auth_ctx.app_id;
    model_id = req.model;
    provider = provider;
    prompt = bytes (g.marshal_messages req.messages);
    response = response;
    token_usage = usage;
    latency = arrival.latency;
    status_code = pos 200;
    error = "";
    metadata = [];
  }

  unfoldable pub collected : RequestMetadata → W → W
  collected metadata w = elim g.collect [ none ↦ w | some collect ↦ collect metadata w ]

  -- The end of `handleNonStream` after failover succeeded, with the response that was assigned.
  unfoldable pub answer : AuthContext → OpenAiRequest F → String → W → Option OpenAiResponse → W
  answer auth_ctx req provider w none = g.reply 200 (answer_body none) w
  answer auth_ctx req provider w (some r) =
      let (w', charged) =
        g.deduct_quota w auth_ctx.user_id auth_ctx.app_id req.model r.usage.total_tokens in
      g.reply 200 (answer_body (some r)) (
        collected
          (metadata_of auth_ctx req provider (first_content r.choices) (record {
            prompt_tokens = r.usage.prompt_tokens;
            completion_tokens = r.usage.completion_tokens;
            total_tokens = r.usage.total_tokens;
          }))
          w')

  abbrev pub finish_non_stream :
      AuthContext
      → OpenAiRequest F
      → String
      → (RouteManager × (W × Option OpenAiResponse))
        × Outcome (FailoverError UpstreamError) (Unit {0})
      → (RouteManager × W) × Ending
  finish_non_stream auth_ctx req provider ((m, (w, resp)), ok u) =
      ((m, answer auth_ctx req provider w resp), returned)
  finish_non_stream auth_ctx req provider ((m, (w, resp)), err e) =
      ((m, g.reply 502 (error_body "upstream unavailable") w), returned)
  finish_non_stream auth_ctx req provider ((m, (w, resp)), panicked) = ((m, w), crashed)

  unfoldable pub handle_non_stream :
      AuthContext
      → OpenAiRequest F
      → ProtocolAdapter KiroTokenManager F
      → RouteManager × W
      → (RouteManager × W) × Ending
  handle_non_stream auth_ctx req adpt (m, w) =
      finish_non_stream auth_ctx req adpt.get_provider_type
        (execute_with_failover (world_of g (try_request g adpt req)) req.model (m, (w, none)))

  -- The end of `handleStream` after failover, which ignores its error.
  unfoldable pub settle_stream :
      AuthContext → OpenAiRequest F → String → String → W → StreamResult → W
  settle_stream auth_ctx req provider reservation_id w result =
      let actual_tokens = result.prompt_tokens +ℤ result.completion_tokens in
      let (w', settled) = g.settle_quota w reservation_id actual_tokens in
      collected
        (metadata_of auth_ctx req provider "" (record {
          prompt_tokens = result.prompt_tokens;
          completion_tokens = result.completion_tokens;
          total_tokens = actual_tokens;
        }))
        w'

  abbrev pub finish_stream :
      AuthContext
      → OpenAiRequest F
      → String
      → String
      → (RouteManager × (W × StreamResult)) × Outcome (FailoverError UpstreamError) (Unit {0})
      → (RouteManager × W) × Ending
  finish_stream auth_ctx req provider reservation_id ((m, (w, result)), ok u) =
      ((m, settle_stream auth_ctx req provider reservation_id w result), returned)
  finish_stream auth_ctx req provider reservation_id ((m, (w, result)), err e) =
      ((m, settle_stream auth_ctx req provider reservation_id w result), returned)
  finish_stream auth_ctx req provider reservation_id ((m, (w, result)), panicked) =
      ((m, w), crashed)

  abbrev pub with_usage : OpenAiRequest F → OpenAiRequest F
  with_usage req = elim req.stream_options [
    | none ↦ record req { stream_options = some (record { include_usage = true }) }
    | some options ↦ req
  ]

  -- `handleStream` from the headers on, once the reservation is made.
  unfoldable pub stream_reserved :
      AuthContext
      → OpenAiRequest F
      → ProtocolAdapter KiroTokenManager F
      → String
      → RouteManager × W
      → (RouteManager × W) × Ending
  stream_reserved auth_ctx req adpt reservation_id (m, w) = elim g.flushes [
    | false ↦ ((m, g.reply 500 (error_body "streaming not supported") (g.start_stream w)), returned)
    | true ↦ finish_stream auth_ctx req adpt.get_provider_type reservation_id (
        execute_with_failover (world_of g (try_stream g adpt req arrival.request_id)) req.model
          (m, (g.start_stream w, record { prompt_tokens = pos 0; completion_tokens = pos 0 })))
  ]

  unfoldable pub handle_stream :
      AuthContext
      → OpenAiRequest F
      → ProtocolAdapter KiroTokenManager F
      → RouteManager × W
      → (RouteManager × W) × Ending
  handle_stream auth_ctx req adpt (m, w) =
      let (w', reserved) = g.reserve_quota w auth_ctx.user_id auth_ctx.app_id req.model (pos 0) in
      elim reserved [
        | failed e ↦ (
          (
            m,
            g.reply 402 (error_body (concat "quota reservation failed: " (g.quota_message e))) w',
          ),
          returned,
        )
        | done reservation_id ↦
            stream_reserved auth_ctx (with_usage req) adpt reservation_id (m, w')
      ]

  -- `Handle` once the limits are checked.
  unfoldable pub handle_request :
      AuthContext → OpenAiRequest F → RouteManager × W → (RouteManager × W) × Ending
  handle_request auth_ctx req (m, w) = elim (get_rule m req.model >>= deref) [
    | panicked ↦ ((m, w), crashed)
    | err e ↦ ((m, g.reply 400 (error_body (concat "model not found: " req.model)) w), returned)
    | ok rule ↦ elim (get_adapter g.adapters rule.provider) [
      | failed e ↦ ((m, g.reply 500 (error_body "adapter not found") w), returned)
      | done adpt ↦ elim req.stream [
        | true ↦ handle_stream auth_ctx req adpt (m, w)
        | false ↦ handle_non_stream auth_ctx req adpt (m, w)
      ]
    ]
  ]

  -- `Handle`, with the Authorization header and the body of the request.
  unfoldable pub handle : String → String → RouteManager × W → (RouteManager × W) × Ending
  handle auth_header body (m, w) = elim (g.authenticate w auth_header) [
    | failed e ↦ ((m, g.reply 401 (error_body (g.auth_message e)) w), returned)
    | done auth_ctx ↦ elim (g.bind body) [
      | failed e ↦ ((m, g.reply 400 (error_body (concat "invalid request body: " e)) w), returned)
      | done req ↦
          (let (w', limited) =
              g.check_multi_dimension w auth_ctx.user_id auth_ctx.app_id req.model (pos 1) in
            elim limited [
              | some e ↦ ((m, g.reply 429 (error_body "rate limit exceeded") w'), returned)
              | none ↦ handle_request auth_ctx req (m, w')
            ])
    ]
  ]
