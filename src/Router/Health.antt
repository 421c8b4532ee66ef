-- ===== src/Router/Health.antt =====
-- internal/router/health.go: the probe of failed keys, and the marking of a key. Rules are shared by
-- pointer with the rule table and changed in place; no two models share one.
pub mod Marking
pub mod Recovery
mod Tests
use llmapi_gate_way.Common.{
  ℕ, zero, suc, ◌+◌, ◌-◌, ◌*◌, ◌/◌, ◌%◌, ◌≤◌, ◌<◌, min, String, ◌≡◌, refl, sym, ap, ◌∙◌, ◌≢◌, ◌↔◌,
  ◌⊎◌, inl, inr, Bool, true, false, not, ◌&&◌, ◌||◌, Option, none, some, List, [], ◌∷◌, ◌++◌, map,
  arith, ◌==◌, eq_iff, eq_refl, eq_false_of_ne, ne_of_eq_false, ltb, leb, eqb, if◌then◌else◌,
  ltb→lt, lt→ltb, eqb_iff, Bool-cases, Option-cases, length, get_elem?, modify, replicate,
  length-append, length-modify, length-replicate, length-map, get_elem?-in_range, All, keep,
  List-cases, eqb_pos,
}
use llmapi_gate_way.Common.Int.{
  ℤ, pos, negsuc, pos_part, neg_part, sub_ℕ, ◌+ℤ◌, ◌-ℤ◌, ◌≤ℤ◌, ltb_ℤ, leb_ℤ, +ℤ_parts, -ℤ_parts,
  eq_of_parts, int_laws,
}
use llmapi_gate_way.Common.Assoc.{
  Assoc, lookup, insert, delete, lookup-insert, lookup-delete, lookup-insert_self, lookup-insert_ne,
  assoc_laws,
}
use llmapi_gate_way.Common.Time.{Time, zero_time, at, second, max_duration, saturate, since, unix}
use llmapi_gate_way.Common.Float.{Float64}
use llmapi_gate_way.Router.Types.{
  provider_cursor, provider_kiro, provider_antigravity, key_status_active, key_status_cooldown,
  key_status_failed, load_balancer_round_robin, load_balancer_random, load_balancer_weighted,
  ApiKeyConfig, FallbackConfig, HealthCheckConfig, RouteRule, RouteUpdateEvent, RouteError,
  no_route_rule, no_active_key, Outcome, ok, err, panicked, ◌>>=◌, deref, index, Outcome-cases,
}
use llmapi_gate_way.Router.Manager.{
  RouteManager, new_route_manager, store_rule, load_rules, apply_update, get_rule, is_active,
  active_keys, index_of, round_robin_select, total_weight, rand_intn, pick, is_zero,
  weighted_select, balance, select_from, select_api_key,
}

-- `providerProbeURLs`
unfoldable pub provider_probe_urls : Assoc String
provider_probe_urls =
    (provider_cursor, "https://api.cursor.sh/v1/chat/completions")
    ∷ (provider_kiro, "https://api.kiro.ai/v1/messages")
    ∷ (provider_antigravity, "https://api.antigravity.ai/v1/chat/completions")
    ∷ []

-- The answer to a probe: its status, and the times read when it came and when the key recovered.
pub record Answer : Type 0 where
  pub status_code : ℕ
  pub checked : ℕ
  pub recovered : ℕ

-- The probe requests, by URL and key; none is a request that failed.
abbrev pub Upstreams : Type 0
Upstreams = String → String → Option Answer

unfoldable pub alive : ℕ → Bool
alive status_code =
    not (eqb status_code 500)
    && not (eqb status_code 502)
    && not (eqb status_code 503)
    && not (eqb status_code 504)

-- The answer that `probeKey` gets, if it sends a request that does not fail.
unfoldable pub probe_answer : Upstreams → String → String → Option Answer
probe_answer upstreams provider key =
    if key == ""
    then none
    else elim (lookup provider provider_probe_urls) [ none ↦ none | some url ↦ upstreams url key ]

-- `probeKey` on a failed key, and the recovery in `probeAll`.
unfoldable pub recover : Upstreams → String → ApiKeyConfig → ApiKeyConfig
recover upstreams provider k = elim (probe_answer upstreams provider k.key) [
  | none ↦ k
  | some a ↦
      if alive a.status_code
      then record k { status = key_status_active; last_check = at a.recovered }
      else record k { last_check = at a.checked }
]

-- A key in the loop of `probeAll`.
unfoldable pub probe_one : Upstreams → String → ApiKeyConfig → ApiKeyConfig
probe_one upstreams provider k =
    let recovered = recover upstreams provider k in
    if k.status == key_status_failed then recovered else k

abbrev pub probe_rule : Upstreams → RouteRule → RouteRule
probe_rule upstreams rule = record rule {
  api_keys = map (probe_one upstreams rule.provider) rule.api_keys;
}

-- The rules of the table; a nil rule is a panic.
unfoldable pub probe_rules :
    Upstreams → Assoc (Option RouteRule) → Outcome RouteError (Assoc (Option RouteRule))
probe_rules upstreams [] = ok []
probe_rules upstreams ((model_id, none) ∷ rest) = panicked
probe_rules upstreams ((model_id, some rule) ∷ rest) = do
  probed ← probe_rules upstreams rest
  ok ((model_id, some (probe_rule upstreams rule)) ∷ probed)

unfoldable pub probe_all : Upstreams → RouteManager → Outcome RouteError RouteManager
probe_all upstreams m = do rules ← probe_rules upstreams m.rules; ok (record m { rules = rules })

-- The loop of `MarkKeyFailed` and `MarkKeyActive`, which stops at the first entry with the key.
unfoldable pub mark_first : String → String → ℕ → List ApiKeyConfig → List ApiKeyConfig
mark_first key status now [] = []
mark_first key status now (k ∷ ks) =
    let rest = mark_first key status now ks in
    if k.key == key then record k { status = status; last_check = at now } ∷ ks else k ∷ rest

unfoldable pub mark_key :
    String → RouteManager → ℕ → String → String → RouteManager × Outcome RouteError (Unit {0})
mark_key status m now model_id key = elim (get_rule m model_id >>= deref) [
  | ok rule ↦ (
    record m {
      rules =
          insert model_id
            (some (record rule { api_keys = mark_first key status now rule.api_keys })) m.rules;
    },
    ok tt,
  )
  | err e ↦ (m, err e)
  | panicked ↦ (m, panicked)
]

unfoldable pub mark_key_failed :
    RouteManager → ℕ → String → String → RouteManager × Outcome RouteError (Unit {0})
mark_key_failed = mark_key key_status_failed

unfoldable pub mark_key_active :
    RouteManager → ℕ → String → String → RouteManager × Outcome RouteError (Unit {0})
mark_key_active = mark_key key_status_active
