-- ===== src/Auth/Issue.antt =====
-- The keys that `RevokeAPIKey` of internal/auth/authenticator.go withdraws.
use Prim.Native.String.{◌++◌ as concat}
use text.Mathlib.TextLemmas.{append_cancel_left}
use llmapi_gate_way.Common.{String, ◌≡◌, refl, sym, ap, ◌≢◌, inl, inr}
use llmapi_gate_way.Common.Result.{Result, done, failed, Result-cases}
use llmapi_gate_way.Common.Split.{LacksSpace}
use llmapi_gate_way.Auth.Keys.{
  ApiKey, AuthFailure, denied, invalid_api_key, KeyStore, KeyStoreLaws, redis_key, verify,
  authenticate, revoke_api_key,
}
use llmapi_gate_way.Auth.Sound.{authenticate-verify}

module _ {S : Type 0} (store : KeyStore S) (laws : KeyStoreLaws store) (hash : String → String)
    (parse : String → Result String ApiKey) where
  -- A revoked key is not let in any more.
  pub revoke_api_key-authenticate :
      (s s' : S) (key : String)
      → LacksSpace key
      → revoke_api_key store hash s key ≡ (s', done tt)
      → authenticate store hash parse s' (concat "Bearer " key) ≡ failed (denied invalid_api_key)
  unfolding revoke_api_key verify
  revoke_api_key-authenticate s s' key lacks h =
      elim (Result-cases (store.del s (redis_key store hash key))) [
        | inr (e, he) ↦ absurd (cc (ap (λ p. p.1) (rw (he, revoke_api_key) at h)))
        | inl (t, ht) ↦
            let gone : store.del s (redis_key store hash key) ≡ done s' =
              rw (ap (λ p. p.0) (rw (ht, revoke_api_key) at h)) at ht in
            rw
              (
                authenticate-verify store hash parse s' key lacks,
                laws.get-del s s' (redis_key store hash key) gone,
                verify,
              )
              refl
      ]

  -- Creating or revoking a key changes the answer of no request with another key, unless the two
  -- keys have the same hash.
  pub revoke_api_key-other :
      (s s' : S) (key other : String) (e : Result AuthFailure (Unit {0}))
      → hash key ≢ hash other
      → revoke_api_key store hash s key ≡ (s', e)
      → verify store hash parse s' other ≡ verify store hash parse s other
  unfolding revoke_api_key verify
  revoke_api_key-other s s' key other e distinct h =
      elim (Result-cases (store.del s (redis_key store hash key))) [
        | inr (e, he) ↦ rw (sym (ap (λ p. p.0) (rw (he, revoke_api_key) at h))) refl
        | inl (t, ht) ↦
            let gone : store.del s (redis_key store hash key) ≡ done s' =
              rw (ap (λ p. p.0) (rw (ht, revoke_api_key) at h)) at ht in
            rw
              (
                laws.get-del_other s s' (redis_key store hash key) (redis_key store hash other)
                    (λ same. distinct (append_cancel_left "apikey:" (hash key) (hash other) same))
                    gone,
                verify,
              )
              refl
      ]
