-- ===== src/Handler/Wired.antt =====
-- The handler of internal/handler/chat.go with the authenticator, the rate limiter and the quota
-- manager of the other packages, all on the gateway's state.
use Prim.Native.String.{◌++◌ as concat}
use llmapi_gate_way.Common.{ℕ, String, ◌≡◌, refl}
use llmapi_gate_way.Common.Float.{Float64}
use llmapi_gate_way.Common.Result.{Result, done}
use llmapi_gate_way.Common.Split.{LacksSpace}
use llmapi_gate_way.Adapter.Types.{Json}
use llmapi_gate_way.Auth.Keys.{
  ApiKey, denied, invalid_api_key, KeyStore, KeyStoreLaws, authenticate, revoke_api_key,
}
use llmapi_gate_way.Auth.Issue.{revoke_api_key-authenticate}
use llmapi_gate_way.Breaker.Limiter.{RateLimiterConfig, Hashes, Texts, check_multi_dimension}
use llmapi_gate_way.Quota.Types.{QuotaReservation}
use llmapi_gate_way.Quota.Redis.{Redis}
use llmapi_gate_way.Quota.Manager.{reserve_quota, settle_quota, deduct_quota}
use llmapi_gate_way.Router.Manager.{RouteManager}
use llmapi_gate_way.Handler.Gateway.{error_body, Gateway}
use llmapi_gate_way.Handler.Chat.{returned, Arrival, handle}

-- What the three components are made with. The clock gives the readings of one check of the limits,
-- and `now` and `new_id` those of the quota manager.
pub record Components (W : Type 0) (fl : Float64) : Type 0 where
  pub store : KeyStore W
  pub hash : String → String
  pub parse : String → Result String ApiKey
  pub lua : Texts fl.F
  pub hashes : Hashes W
  pub limits : RateLimiterConfig fl.F
  pub readings : W → ℕ → ℕ
  pub redis : Redis W
  pub reservations : Json QuotaReservation
  pub now : W → ℕ
  pub new_id : W → String

unfoldable pub wired :
    {W B : Type 0} (fl : Float64) → Components W fl → Gateway W B fl.F → Gateway W B fl.F
wired fl c g = record g {
  authenticate = authenticate c.store c.hash c.parse;
  check_multi_dimension = λ w user app model n.
      check_multi_dimension fl c.lua c.hashes c.limits w user app model n (c.readings w);
  reserve_quota = λ w user app model n.
      reserve_quota c.redis c.reservations (c.new_id w) (c.now w) w user app model n;
  settle_quota = λ w id n. settle_quota c.redis c.reservations (c.now w) w id n;
  deduct_quota = deduct_quota c.redis;
}

module _ {W B : Type 0} (fl : Float64) (c : Components W fl) (g : Gateway W B fl.F)
    (arrival : Arrival) where
  -- With a key that was revoked the handler answers 401 and does nothing else.
  pub handle-revoke_api_key :
      (w w' : W) (m : RouteManager) (key body : String)
      → KeyStoreLaws c.store
      → LacksSpace key
      → revoke_api_key c.store c.hash w key ≡ (w', done tt)
      → handle (wired fl c g) arrival (concat "Bearer " key) body (m, w')
        ≡ ((m, g.reply 401 (error_body (g.auth_message (denied invalid_api_key))) w'), returned)
  unfolding handle wired
  handle-revoke_api_key w w' m key body laws lacks revoked =
      rw (revoke_api_key-authenticate c.store laws c.hash c.parse w w' key lacks revoked, handle)
        refl
