-- ===== src/Adapter/Errors.antt =====
-- internal/adapter/error.go: the errors that are sent to a client.
use mathlib.Core.List.{Memᴰ}
use Prim.Native.String.{◌++◌ as concat}
use llmapi_gate_way.Common.{
  ℕ, String, ◌≡◌, refl, ◌⊎◌, inl, inr, [], ◌∷◌, eqb, if◌then◌else◌, eqb_iff, Bool-cases,
}
use llmapi_gate_way.Common.Result.{done, failed}
use llmapi_gate_way.Adapter.Types.{Json}

pub record ErrorDetail : Type 0 where
  pub message : String
  pub type : String
  pub param : String
  pub code : String

pub record ErrorResponse : Type 0 where
  pub error : ErrorDetail

pub record ConversionError : Type 0 where
  pub status_code : ℕ
  pub message : String
  pub type : String
  pub code : String

-- The method `Error`.
unfoldable pub error_text : ConversionError → String
error_text e =
    concat "conversion error: " (concat e.message (concat " (code: " (concat e.code ")")))

unfoldable pub to_error_response : ConversionError → ErrorResponse
to_error_response e = record {
  error = record { message = e.message; type = e.type; param = ""; code = e.code };
}

-- `ToJSON`; an encoding error is ignored and leaves no bytes.
unfoldable pub to_json : Json ErrorResponse → ConversionError → String
to_json json e = elim (json.marshal (to_error_response e)) [ done text ↦ text | failed x ↦ "" ]

unfoldable pub new_conversion_error : ℕ → String → String → String → ConversionError
new_conversion_error status_code message type code = record {
  status_code = status_code;
  message = message;
  type = type;
  code = code;
}

unfoldable pub new_invalid_request_error : String → ConversionError
new_invalid_request_error message =
    new_conversion_error 400 message "invalid_request_error" "invalid_request"

unfoldable pub new_authentication_error : String → ConversionError
new_authentication_error message =
    new_conversion_error 401 message "authentication_error" "invalid_api_key"

unfoldable pub new_rate_limit_error : String → ConversionError
new_rate_limit_error message =
    new_conversion_error 429 message "rate_limit_error" "rate_limit_exceeded"

unfoldable pub new_server_error : String → ConversionError
new_server_error message = new_conversion_error 500 message "server_error" "internal_error"

-- The `switch` of `NewUpstreamError`.
unfoldable pub upstream_kind : ℕ → String × String
upstream_kind status_code =
    if eqb status_code 401
    then ("authentication_error", "invalid_api_key")
    else if eqb status_code 403
    then ("authentication_error", "permission_denied")
    else if eqb status_code 429
    then ("rate_limit_error", "rate_limit_exceeded")
    else if eqb status_code 400
    then ("invalid_request_error", "invalid_request")
    else if eqb status_code 503
    then ("server_error", "service_unavailable")
    else ("server_error", "upstream_error")

unfoldable pub new_upstream_error : ℕ → String → ConversionError
new_upstream_error status_code message =
    let (type, code) = upstream_kind status_code in
    new_conversion_error status_code message type code

unfoldable pub new_parse_error : String → ConversionError
new_parse_error message =
    new_conversion_error 500 (concat "failed to parse response: " message) "server_error"
      "parse_error"

unfoldable pub new_marshal_error : String → ConversionError
new_marshal_error message =
    new_conversion_error 500 (concat "failed to marshal request: " message) "server_error"
      "marshal_error"

kind :
    (status_code : ℕ)
    → ((upstream_kind status_code).0 ≡ "server_error")
      ⊎ Memᴰ status_code (400 ∷ 401 ∷ 403 ∷ 429 ∷ [])
unfolding upstream_kind
kind c = elim (Bool-cases (eqb c 401)) [
  | inl h ↦ inr (Memᴰ.tail (Memᴰ.head ((eqb_iff c 401).0 h)))
  | inr n ↦ elim (Bool-cases (eqb c 403)) [
    | inl h ↦ inr (Memᴰ.tail (Memᴰ.tail (Memᴰ.head ((eqb_iff c 403).0 h))))
    | inr n' ↦ elim (Bool-cases (eqb c 429)) [
      | inl h ↦ inr (Memᴰ.tail (Memᴰ.tail (Memᴰ.tail (Memᴰ.head ((eqb_iff c 429).0 h)))))
      | inr n'' ↦ elim (Bool-cases (eqb c 400)) [
        | inl h ↦ inr (Memᴰ.head ((eqb_iff c 400).0 h))
        | inr n3 ↦ elim (Bool-cases (eqb c 503)) [
          | inl h ↦ inl (rw (n, n', n'', n3, h, upstream_kind) refl)
          | inr n4 ↦ inl (rw (n, n', n'', n3, n4, upstream_kind) refl)
        ]
      ]
    ]
  ]
]

-- An upstream error keeps its status and message, and where the status is one that the gateway
-- itself answers with for a bad request, a bad key or too many requests, it is the very error that
-- the gateway's own constructor makes. Any other status but 403 is a server error.
pub new_upstream_error-agrees :
    (status_code : ℕ) (message : String)
    → ((new_upstream_error status_code message).status_code ≡ status_code)
      × ((new_upstream_error status_code message).message ≡ message)
      × (new_upstream_error 400 message ≡ new_invalid_request_error message)
      × (new_upstream_error 401 message ≡ new_authentication_error message)
      × (new_upstream_error 429 message ≡ new_rate_limit_error message)
      × (((new_upstream_error status_code message).type ≡ "server_error")
          ⊎ Memᴰ status_code (400 ∷ 401 ∷ 403 ∷ 429 ∷ []))
unfolding new_upstream_error new_conversion_error new_invalid_request_error new_authentication_error
    new_rate_limit_error upstream_kind
new_upstream_error-agrees status_code message = (refl, refl, refl, refl, refl, kind status_code)
