-- ===== src/Handler/Upstream.antt =====
-- The requests to a provider in internal/handler/chat.go: `buildHTTPRequest`, and the two functions
-- that the handlers give to failover. Each works on the gateway's state and the variable that it
-- assigns.
use Prim.Native.String.{len, slice, ◌++◌ as concat}
use llmapi_gate_way.Common.{
  min, String, Bool, true, false, not, ◌&&◌, Option, none, some, [], ◌∷◌, ◌==◌, if◌then◌else◌,
}
use llmapi_gate_way.Common.Int.{ℤ, pos, leb_ℤ}
use llmapi_gate_way.Common.Assoc.{Assoc, lookup, insert}
use llmapi_gate_way.Common.Result.{Result, done, failed}
use llmapi_gate_way.Adapter.Types.{
  OpenAiRequest, UpstreamRequest, OpenAiResponse, AdapterError, ProtocolAdapter,
}
use llmapi_gate_way.Adapter.Kiro.{KiroTokenManager}
use llmapi_gate_way.Router.Failover.{World}
use llmapi_gate_way.Handler.Gateway.{HttpRequest, HttpResponse, StreamResult, Http, Gateway}

-- Why a try failed. In a stream the error is not wrapped.
pub data UpstreamError : Type 0 where
  conversion_failed : AdapterError → UpstreamError
  request_invalid : String → UpstreamError
  request_failed : String → UpstreamError
  upstream_status : ℤ → UpstreamError
  read_failed : String → UpstreamError
  stream_failed : String → UpstreamError

-- `Header.Set` of every header.
unfoldable pub set_headers : Http → Assoc String → Assoc String → Assoc String
set_headers http headers [] = headers
set_headers http headers ((k, v) ∷ rest) =
    set_headers http (insert (http.canonical k) v headers) rest

-- `Header.Get`
abbrev pub header_or_empty : Option String → String
header_or_empty none = ""
header_or_empty (some v) = v

unfoldable pub authorize : String → Assoc String → Assoc String
authorize api_key headers =
    if (header_or_empty (lookup "Authorization" headers) == "") && not (api_key == "")
    then insert "Authorization" (concat "Bearer " api_key) headers
    else headers

-- The body is a byte slice, which `json.Marshal` encodes once more.
unfoldable pub build_http_request :
    Http → UpstreamRequest → String → Result UpstreamError HttpRequest
build_http_request http upstream_req api_key =
    elim (http.new_request upstream_req.method upstream_req.url) [
      | some e ↦ failed (request_invalid e)
      | none ↦ done (record {
        method = upstream_req.method;
        url = upstream_req.url;
        headers = authorize api_key (set_headers http [] upstream_req.headers);
        body = http.encode_bytes upstream_req.body;
      })
    ]

-- `requestID + "-" + apiKey[:min(8, len(apiKey))]`
unfoldable pub session_id : String → String → String
session_id request_id api_key =
    concat request_id (concat "-" (slice api_key 0 (min 8 (len api_key))))

module _ {W B F : Type 0} (g : Gateway W B F) where
  -- The conversion and the request that both functions begin with.
  unfoldable pub prepare :
      ProtocolAdapter KiroTokenManager F
      → OpenAiRequest F
      → String
      → W
      → W × Result UpstreamError HttpRequest
  prepare adpt req api_key w =
      let (tokens, converted) = adpt.convert_request (g.clock w) (g.tokens w) (some req) in
      (
        g.set_tokens tokens w,
        elim converted [
          | failed e ↦ failed (conversion_failed e)
          | done upstream_req ↦ build_http_request g.http upstream_req api_key
        ],
      )

  -- The steps of the non-streaming function, from the last one on.
  abbrev pub converted :
      W → Result AdapterError OpenAiResponse → (W × Option OpenAiResponse) × Option UpstreamError
  converted w (failed e) = ((w, none), some (conversion_failed e))
  converted w (done r) = ((w, some r), none)

  abbrev pub read_body :
      ProtocolAdapter KiroTokenManager F
      → ℤ
      → Option OpenAiResponse
      → W
      → Result String String
      → (W × Option OpenAiResponse) × Option UpstreamError
  read_body adpt status held w (failed e) = ((w, held), some (read_failed e))
  read_body adpt status held w (done body) = converted w (
      adpt.convert_response (g.clock w)
        (some (record { status_code = status; headers = []; body = body })))

  abbrev pub check_status :
      ProtocolAdapter KiroTokenManager F
      → Option OpenAiResponse
      → W
      → HttpResponse B
      → Bool
      → (W × Option OpenAiResponse) × Option UpstreamError
  check_status adpt held w resp true = ((w, held), some (upstream_status resp.status_code))
  check_status adpt held w resp false =
      let (w', body) = g.read_all resp.body w in read_body adpt resp.status_code held w' body

  abbrev pub receive :
      ProtocolAdapter KiroTokenManager F
      → Option OpenAiResponse
      → W
      → Result String (HttpResponse B)
      → (W × Option OpenAiResponse) × Option UpstreamError
  receive adpt held w (failed e) = ((w, held), some (request_failed e))
  receive adpt held w (done resp) = check_status adpt held w resp (leb_ℤ (pos 500) resp.status_code)

  abbrev pub dispatch :
      ProtocolAdapter KiroTokenManager F
      → Option OpenAiResponse
      → W
      → Result UpstreamError HttpRequest
      → (W × Option OpenAiResponse) × Option UpstreamError
  dispatch adpt held w (failed e) = ((w, held), some e)
  dispatch adpt held w (done http_req) =
      let (w', answer) = g.send http_req w in receive adpt held w' answer

  -- The function that `handleNonStream` gives to failover.
  unfoldable pub try_request :
      ProtocolAdapter KiroTokenManager F
      → OpenAiRequest F
      → String
      → W × Option OpenAiResponse
      → (W × Option OpenAiResponse) × Option UpstreamError
  try_request adpt req api_key (w, held) =
      let (w', prepared) = prepare adpt req api_key w in dispatch adpt held w' prepared

  -- The same steps of the streaming function.
  abbrev pub stream_result :
      W × (StreamResult × Option String) → (W × StreamResult) × Option UpstreamError
  stream_result (w, (result, none)) = ((w, result), none)
  stream_result (w, (result, some e)) = ((w, result), some (stream_failed e))

  abbrev pub receive_stream :
      String
      → StreamResult
      → W
      → Result String (HttpResponse B)
      → (W × StreamResult) × Option UpstreamError
  receive_stream session held w (failed e) = ((w, held), some (request_failed e))
  receive_stream session held w (done resp) = stream_result (g.proxy_stream resp session w)

  abbrev pub dispatch_stream :
      String
      → StreamResult
      → W
      → Result UpstreamError HttpRequest
      → (W × StreamResult) × Option UpstreamError
  dispatch_stream session held w (failed e) = ((w, held), some e)
  dispatch_stream session held w (done http_req) =
      let (w', answer) = g.send http_req w in receive_stream session held w' answer

  -- The function that `handleStream` gives to failover.
  unfoldable pub try_stream :
      ProtocolAdapter KiroTokenManager F
      → OpenAiRequest F
      → String
      → String
      → W × StreamResult
      → (W × StreamResult) × Option UpstreamError
  try_stream adpt req request_id api_key (w, held) =
      let (w', prepared) = prepare adpt req api_key w in
      dispatch_stream (session_id request_id api_key) held w' prepared

  -- The world of failover, with the function that it runs.
  abbrev pub world_of :
      {X : Type 0} → (String → W × X → (W × X) × Option UpstreamError) → World (W × X) UpstreamError
  world_of run = record {
    allow_request = λ key t. let (w, allowed) = g.allow_request key t.0 in ((w, t.1), allowed);
    record_success = λ key t. (g.record_success key t.0, t.1);
    record_failure = λ key t. (g.record_failure key t.0, t.1);
    execute = run;
    rand = λ t. let (w, intn) = g.rand t.0 in ((w, t.1), intn);
  }
