-- ===== src/Handler/Chat/Tests.antt =====
-- A gateway whose only provider answers every request, and a run of the handler.
use llmapi_gate_way.Common.{
  ℕ, String, ◌≡◌, refl, Bool, true, false, none, some, [], ◌∷◌, ◌==◌, if◌then◌else◌,
}
use llmapi_gate_way.Common.Int.{◌+ℤ◌, pos}
use llmapi_gate_way.Common.Assoc.{lookup, insert}
use llmapi_gate_way.Common.Time.{zero_time}
use llmapi_gate_way.Common.Result.{done, failed}
use llmapi_gate_way.Adapter.Types.{OpenAiRequest, OpenAiResponse, UpstreamRequest, ProtocolAdapter}
use llmapi_gate_way.Adapter.Types.{AdapterError}
use llmapi_gate_way.Adapter.Kiro.{KiroTokenManager}
use llmapi_gate_way.Adapter.Factory.{get_adapter}
use llmapi_gate_way.Auth.Keys.{AuthContext, denied, missing_auth}
use llmapi_gate_way.Router.Types.{RouteRule, provider_kiro, load_balancer_random}
use llmapi_gate_way.Router.Manager.{
  RouteManager, new_route_manager, store_rule, get_rule, select_api_key, select_from, balance,
  rand_intn,
}
use llmapi_gate_way.Router.Failover.{
  execute_with_failover, try_primary_key, select, try_key, attempt,
}
use llmapi_gate_way.Handler.Gateway.{HttpRequest, answer_body, Gateway}
use llmapi_gate_way.Handler.Upstream.{
  build_http_request, set_headers, authorize, prepare, try_request, try_stream,
}
use llmapi_gate_way.Handler.Chat.{
  Arrival, collected, answer, handle_non_stream, settle_stream, stream_reserved, handle_stream,
  handle_request, handle,
}
use llmapi_gate_way.Handler.Chat.{returned}
use llmapi_gate_way.Common.Fixed.{fixed}
use llmapi_gate_way.Auth.Keys.{invalid_api_key, revoke_api_key}
use llmapi_gate_way.Auth.Tests.{memory, memory-KeyStoreLaws, marked, decoded, held}
use llmapi_gate_way.Breaker.Limiter.{defaults}
use llmapi_gate_way.Common.Assoc.{Assoc, delete}
use llmapi_gate_way.Handler.Gateway.{error_body}
use llmapi_gate_way.Handler.Wired.{Components, wired, handle-revoke_api_key}
use llmapi_gate_way.Handler.Chat.Trace.{
  checked, reserved, started, sent, settlement, deducted, replied, traced,
}

abbrev response : OpenAiResponse
response = record {
  id = "r";
  object = "chat.completion";
  created = pos 0;
  model = "m";
  choices = [];
  usage = record { prompt_tokens = pos 3; completion_tokens = pos 4; total_tokens = pos 7 };
}

abbrev upstream : UpstreamRequest
upstream = record { url = "https://upstream"; method = "POST"; headers = []; body = "{}" }

abbrev echo : ProtocolAdapter KiroTokenManager ℕ
echo = record {
  convert_request = λ clock s req. (s, done upstream);
  convert_response = λ clock resp. done response;
  convert_stream_chunk = λ clock chunk. failed AdapterError.empty_chunk;
  get_provider_type = provider_kiro;
}

abbrev ada : AuthContext
ada = record { api_key = "sk-0a"; user_id = "ada"; app_id = "desk" }

abbrev request : Bool → OpenAiRequest ℕ
request stream = record {
  model = "m";
  messages = [];
  temperature = 0;
  max_tokens = pos 10;
  stream = stream;
  stream_options = none;
}

abbrev rule : RouteRule
rule = record {
  model_id = "m";
  provider = provider_kiro;
  api_keys = (record { key = "k"; weight = pos 1; status = "active"; last_check = zero_time }) ∷ [];
  fallback_chain = [];
  load_balancer = load_balancer_random;
  health_check = record { enabled = true; interval = pos 0; timeout = pos 0 };
  updated_at = zero_time;
}

abbrev manager : RouteManager
manager = store_rule new_route_manager rule

abbrev sample : {W : Type 0} → Gateway W String ℕ
sample = record {
  http = record { encode_bytes = λ t. t; new_request = λ method url. none; canonical = λ k. k };
  auth_message = λ e. "Missing Authorization header";
  quota_message = λ e. "insufficient user quota";
  bind = λ body. if body == "stream" then done (request true) else done (request false);
  marshal_messages = λ messages. done "[]";
  adapters = (provider_kiro, echo) ∷ [];
  flushes = true;
  authenticate = λ s header. if header == "" then failed (denied missing_auth) else done ada;
  check_multi_dimension = λ s user app model n. (s, none);
  reserve_quota = λ s user app model n. (s, done "id");
  settle_quota = λ s id n. (s, done tt);
  deduct_quota = λ s user app model n. (s, done tt);
  clock = λ s. record { first = 0; second_reading = 0; third = 0 };
  tokens = λ s. record { token = ""; token_expiry = zero_time; refresh_token = "" };
  set_tokens = λ m s. s;
  allow_request = λ key s. (s, true);
  record_success = λ key s. s;
  record_failure = λ key s. s;
  rand = λ s. (s, λ n. 0);
  send = λ req s. (s, done (record { status_code = pos 200; body = "{}" }));
  read_all = λ b s. (s, done b);
  proxy_stream =
      λ resp id s. (s, (record { prompt_tokens = pos 3; completion_tokens = pos 4 }, none));
  collect = none;
  reply = λ code body s. s;
  start_stream = λ s. s;
}

abbrev small : Gateway (Unit {0}) String ℕ
small = sample

abbrev arrival : Arrival
arrival = record { request_id = "q"; start_time = zero_time; latency = pos 0 }

abbrev outgoing : HttpRequest
outgoing = record {
  method = "POST";
  url = "https://upstream";
  headers = ("Authorization", "Bearer k") ∷ [];
  body = "{}";
}

-- An answered request, and a stream.
answered_log :
    (handle (traced small) arrival "Bearer sk-0a" "{}" (manager, (tt, []))).0.1.1
    ≡ replied 200 (answer_body (some response))
      ∷ deducted "ada" "desk" "m" (pos 7) true
      ∷ sent outgoing
      ∷ checked "ada" "desk" "m" true
      ∷ []
unfolding handle handle_request handle_non_stream answer collected try_request prepare
    build_http_request set_headers authorize get_adapter execute_with_failover try_primary_key
    try_key attempt select select_api_key get_rule select_from balance rand_intn store_rule
    new_route_manager lookup insert
answered_log = refl

stream_log :
    (handle (traced small) arrival "Bearer sk-0a" "stream" (manager, (tt, []))).0.1.1
    ≡ settlement "id" (pos 7) true
      ∷ sent outgoing
      ∷ started
      ∷ reserved "ada" "desk" "m" (some "id")
      ∷ checked "ada" "desk" "m" true
      ∷ []
unfolding handle handle_request handle_stream stream_reserved settle_stream collected try_stream
    prepare build_http_request set_headers authorize get_adapter execute_with_failover
    try_primary_key try_key attempt select select_api_key get_rule select_from balance rand_intn
    store_rule new_route_manager lookup insert ◌+ℤ◌
stream_log = refl

-- The authenticator's store in memory; the other stores are down.
abbrev components : Components (Assoc String) fixed
components = record {
  store = memory;
  hash = marked;
  parse = decoded;
  lua = record { tonumber = λ t. none; tostring = λ n. ""; scan = λ t. 0 };
  hashes = record {
    hmget = λ s k f g. failed "down";
    hmset = λ s k p q. failed "down";
    expire = λ s k n. failed "down";
    hget = λ s k f. failed "down";
    del = λ s k. failed "down";
    ttl = λ s k. none;
    wait = λ n s. s;
  };
  limits = defaults fixed;
  readings = λ s i. 0;
  redis = record {
    hget = λ s k f. failed "down";
    hincrby = λ s k f n. failed "down";
    get = λ s k. failed "down";
    set = λ s k t. failed "down";
  };
  reservations = record {
    marshal = λ r. failed "unsupported value";
    unmarshal = λ t. failed "unexpected end of JSON input";
  };
  now = λ s. 0;
  new_id = λ s. "id";
}

handle-revoke_api_key_example :
    handle (wired fixed components sample) arrival "Bearer sk-0a" "{}" (manager, []) ≡ (
      (
        manager,
        (sample {W = Assoc String}).reply 401
            (error_body (small.auth_message (denied invalid_api_key)))
            [],
      ),
      returned,
    )
unfolding revoke_api_key delete
handle-revoke_api_key_example =
    handle-revoke_api_key fixed components sample arrival held [] manager "sk-0a" "{}"
      memory-KeyStoreLaws (refl, (refl, (refl, (refl, (refl, tt))))) refl
