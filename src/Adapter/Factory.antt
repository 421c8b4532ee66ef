-- ===== src/Adapter/Factory.antt =====
-- internal/adapter/factory.go: the adapter of a provider.
use llmapi_gate_way.Common.{
  String, ◌≡◌, refl, sym, ◌≢◌, ◌⊎◌, inl, inr, false, none, some, [], ◌∷◌, ◌==◌, eq_iff, eq_refl,
  Bool-cases,
}
use llmapi_gate_way.Common.Assoc.{Assoc, lookup}
use llmapi_gate_way.Router.Types.{provider_cursor, provider_kiro, provider_antigravity}
use llmapi_gate_way.Common.Result.{Result, done, failed}
use llmapi_gate_way.Adapter.Types.{AdapterError, unsupported_provider, Json, ProtocolAdapter}
use llmapi_gate_way.Adapter.Cursor.{
  CursorRequest, CursorResponse, CursorStreamChunk, cursor_adapter,
}
use llmapi_gate_way.Adapter.Antigravity.{
  AntigravityRequest, AntigravityResponse, AntigravityStreamChunk, antigravity_adapter,
}
use llmapi_gate_way.Adapter.Kiro.{
  KiroTokenManager, KiroRequest, KiroResponse, KiroStreamChunk, kiro_adapter,
}

-- encoding/json for the types of the three services.
pub record Codecs (F : Type 0) : Type 0 where
  pub cursor_requests : Json (CursorRequest F)
  pub cursor_responses : Json CursorResponse
  pub cursor_chunks : Json CursorStreamChunk
  pub kiro_requests : Json (KiroRequest F)
  pub kiro_responses : Json KiroResponse
  pub kiro_chunks : Json KiroStreamChunk
  pub antigravity_requests : Json (AntigravityRequest F)
  pub antigravity_responses : Json AntigravityResponse
  pub antigravity_chunks : Json AntigravityStreamChunk

-- The adapters share the state that they change, Kiro's token manager.
abbrev pub AdapterFactory : Type 0 → Type 0
AdapterFactory F = Assoc (ProtocolAdapter KiroTokenManager F)

abbrev of_cursor : {F : Type 0} → Codecs F → ProtocolAdapter KiroTokenManager F
of_cursor json = cursor_adapter json.cursor_requests json.cursor_responses json.cursor_chunks

abbrev of_kiro : {F : Type 0} → Codecs F → ProtocolAdapter KiroTokenManager F
of_kiro json = kiro_adapter json.kiro_requests json.kiro_responses json.kiro_chunks

abbrev of_antigravity : {F : Type 0} → Codecs F → ProtocolAdapter KiroTokenManager F
of_antigravity json =
    antigravity_adapter json.antigravity_requests json.antigravity_responses json.antigravity_chunks

unfoldable pub new_adapter_factory : {F : Type 0} → Codecs F → AdapterFactory F
new_adapter_factory json =
    (provider_cursor, of_cursor json)
    ∷ (provider_kiro, of_kiro json)
    ∷ (provider_antigravity, of_antigravity json)
    ∷ []

unfoldable pub get_adapter :
    {F : Type 0}
    → AdapterFactory F
    → String
    → Result AdapterError (ProtocolAdapter KiroTokenManager F)
get_adapter f provider = elim (lookup provider f) [
  | none ↦ failed (unsupported_provider provider)
  | some adapter ↦ done adapter
]

abbrev pub IsProvider : String → Type 0
IsProvider p = (p ≡ provider_cursor) ⊎ ((p ≡ provider_kiro) ⊎ (p ≡ provider_antigravity))

differs : (name provider : String) → (name == provider) ≡ false → provider ≢ name
differs name provider h e = cc (rw (e, eq_refl name) at h)

-- The factory has an adapter for each of the three providers, and it is that provider's own; for
-- any other name it reports an unsupported provider.
pub get_adapter-own :
    {F : Type 0} (json : Codecs F) (provider : String)
    → (IsProvider provider
        × (a : ProtocolAdapter KiroTokenManager F) × (get_adapter
              (new_adapter_factory json)
              provider
            ≡ done a)
        × (a.get_provider_type ≡ provider))
      ⊎ ((get_adapter (new_adapter_factory json) provider ≡ failed (unsupported_provider provider))
          × (provider ≢ provider_cursor)
          × (provider ≢ provider_kiro)
          × (provider ≢ provider_antigravity))
unfolding get_adapter new_adapter_factory lookup
get_adapter-own json provider = elim (Bool-cases (provider_cursor == provider)) [
  | inl one ↦
      let e = (eq_iff provider_cursor provider).0 one in
      inl (inl (sym e), of_cursor json, rw (one, get_adapter) refl, e)
  | inr not_one ↦ elim (Bool-cases (provider_kiro == provider)) [
    | inl two ↦
        let e = (eq_iff provider_kiro provider).0 two in
        inl (inr (inl (sym e)), of_kiro json, rw (not_one, two, get_adapter) refl, e)
    | inr not_two ↦ elim (Bool-cases (provider_antigravity == provider)) [
      | inl three ↦
          let e = (eq_iff provider_antigravity provider).0 three in
          inl (
            inr (inr (sym e)),
            of_antigravity json,
            rw (not_one, not_two, three, get_adapter) refl,
            e,
          )
      | inr not_three ↦ inr (
        rw (not_one, not_two, not_three, get_adapter) refl,
        differs provider_cursor provider not_one,
        differs provider_kiro provider not_two,
        differs provider_antigravity provider not_three,
      )
    ]
  ]
]
