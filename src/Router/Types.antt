-- ===== src/Router/Types.antt =====
-- internal/router/types.go. Its string types are texts: a rule that comes from Redis may hold any.
use llmapi_gate_way.Common.{
  ℕ, String, ◌≡◌, refl, ◌⊎◌, inl, inr, Bool, Option, none, some, List, get_elem?,
}
use llmapi_gate_way.Common.Int.{ℤ}
use llmapi_gate_way.Common.Time.{Time}

abbrev pub provider_cursor : String
provider_cursor = "cursor"

abbrev pub provider_kiro : String
provider_kiro = "kiro"

abbrev pub provider_antigravity : String
provider_antigravity = "antigravity"

abbrev pub key_status_active : String
key_status_active = "active"

abbrev pub key_status_cooldown : String
key_status_cooldown = "cooldown"

abbrev pub key_status_failed : String
key_status_failed = "failed"

abbrev pub load_balancer_round_robin : String
load_balancer_round_robin = "round_robin"

abbrev pub load_balancer_random : String
load_balancer_random = "random"

abbrev pub load_balancer_weighted : String
load_balancer_weighted = "weighted"

pub record ApiKeyConfig : Type 0 where
  pub key : String
  pub weight : ℤ
  pub status : String
  pub last_check : Time

pub record FallbackConfig : Type 0 where
  pub level : ℤ
  pub model_id : String
  pub provider : String
  pub condition : String

pub record HealthCheckConfig : Type 0 where
  pub enabled : Bool
  pub interval : ℤ
  pub timeout : ℤ

pub record RouteRule : Type 0 where
  pub model_id : String
  pub provider : String
  pub api_keys : List ApiKeyConfig
  pub fallback_chain : List FallbackConfig
  pub load_balancer : String
  pub health_check : HealthCheckConfig
  pub updated_at : Time

-- The rule is a pointer, which a payload without a rule leaves nil.
pub record RouteUpdateEvent : Type 0 where
  pub model_id : String
  pub rule : Option RouteRule

-- How a call ends: with a value, with a Go `error`, or with a run-time panic.
pub data Outcome {ℓ κ} (E : Type ℓ) (A : Type κ) : Type (ℓ ⊔ κ) where
  ok : A → Outcome E A
  err : E → Outcome E A
  panicked : Outcome E A

infixl 5 ◌>>=◌
abbrev pub ◌>>=◌ {ℓ κ ν} :
    {E : Type ℓ} {A : Type κ} {B : Type ν} → Outcome E A → (A → Outcome E B) → Outcome E B
ok a >>= f = f a
err e >>= f = err e
panicked >>= f = panicked

-- `*p`
abbrev pub deref {ℓ κ} : {E : Type ℓ} {A : Type κ} → Option A → Outcome E A
deref none = panicked
deref (some a) = ok a

-- `xs[i]`
abbrev pub index {ℓ κ} : {E : Type ℓ} {A : Type κ} → List A → ℕ → Outcome E A
index xs i = deref (get_elem? xs i)

pub data RouteError : Type 0 where
  no_route_rule : String → RouteError
  no_active_key : String → RouteError

pub Outcome-cases {ℓ κ} :
    {E : Type ℓ} {A : Type κ} (r : Outcome E A)
    → ((a : A) × (r ≡ ok a)) ⊎ (((e : E) × (r ≡ err e)) ⊎ (r ≡ panicked))
Outcome-cases (ok a) = inl (a, refl)
Outcome-cases (err e) = inr (inl (e, refl))
Outcome-cases panicked = inr (inr refl)
