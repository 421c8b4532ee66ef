-- ===== src/Router/Manager.antt =====
-- internal/router/manager.go: the rule table and the choice of an API key. The table maps a model to
-- a pointer, which may be nil; `rand.Intn` is the argument `intn`, its value for each bound. Redis
-- and its JSON texts are outside the model: a load is given the rules that were read.
pub mod Selection
pub mod RoundRobin
pub mod Weighted
pub mod Total
mod Tests
use llmapi_gate_way.Common.{
  ℕ, zero, suc, ◌+◌, ◌-◌, ◌*◌, ◌/◌, ◌%◌, ◌≤◌, ◌<◌, min, String, ◌≡◌, refl, sym, ap, ◌∙◌, ◌≢◌, ◌↔◌,
  ◌⊎◌, inl, inr, Bool, true, false, not, ◌&&◌, ◌||◌, Option, none, some, List, [], ◌∷◌, ◌++◌, map,
  arith, ◌==◌, eq_iff, eq_refl, eq_false_of_ne, ltb, leb, eqb, if◌then◌else◌, ltb→lt, lt→ltb,
  eqb_iff, Bool-cases, Option-cases, length, get_elem?, modify, replicate, length-append,
  length-modify, length-replicate, length-map, get_elem?-in_range, All, keep,
}
use llmapi_gate_way.Common.Int.{
  ℤ, pos, negsuc, pos_part, neg_part, sub_ℕ, ◌+ℤ◌, ◌-ℤ◌, ◌≤ℤ◌, ltb_ℤ, leb_ℤ, +ℤ_parts, -ℤ_parts,
  eq_of_parts, int_laws,
}
use llmapi_gate_way.Common.Assoc.{
  Assoc, lookup, insert, delete, lookup-insert, lookup-delete, lookup-insert_self, lookup-insert_ne,
  assoc_laws,
}
use llmapi_gate_way.Common.Time.{Time, zero_time, at, second, max_duration, saturate, since, unix}
use llmapi_gate_way.Common.Float.{Float64}
use llmapi_gate_way.Router.Types.{
  ApiKeyConfig, RouteRule, RouteUpdateEvent, RouteError, no_route_rule, no_active_key, Outcome, ok,
  err, panicked, ◌>>=◌, deref, index, key_status_active, load_balancer_round_robin,
  load_balancer_random, load_balancer_weighted,
}

pub record RouteManager : Type 0 where
  pub rules : Assoc (Option RouteRule)
  pub round_robin : Assoc ℕ

unfoldable pub new_route_manager : RouteManager
new_route_manager = record { rules = []; round_robin = [] }

-- `m.rules.Store(rule.ModelID, &rule)`
unfoldable pub store_rule : RouteManager → RouteRule → RouteManager
store_rule m rule = record m { rules = insert rule.model_id (some rule) m.rules }

-- The loop of `LoadRules` over the stored rules; `none` is one that could not be read or parsed,
-- which is skipped.
unfoldable pub load_rules : RouteManager → List (Option RouteRule) → RouteManager
load_rules m [] = m
load_rules m (none ∷ rest) = load_rules m rest
load_rules m (some rule ∷ rest) = load_rules (store_rule m rule) rest

-- The body of the loop of `SubscribeUpdates`; `none` is a payload that does not parse.
unfoldable pub apply_update : RouteManager → Option RouteUpdateEvent → RouteManager
apply_update m none = m
apply_update m (some update) = record m { rules = insert update.model_id update.rule m.rules }

unfoldable pub get_rule : RouteManager → String → Outcome RouteError (Option RouteRule)
get_rule m model_id = elim (lookup model_id m.rules) [
  | none ↦ err (no_route_rule model_id)
  | some rule ↦ ok rule
]

abbrev pub is_active : ApiKeyConfig → Bool
is_active k = k.status == key_status_active

-- The loop of `SelectAPIKey` that filters the keys.
abbrev pub active_keys : List ApiKeyConfig → List ApiKeyConfig
active_keys = keep is_active

abbrev pub index_of : Option ℕ → ℕ
index_of none = 0
index_of (some i) = i

-- `roundRobinSelect`
unfoldable pub round_robin_select :
    RouteManager → String → List ApiKeyConfig → RouteManager × Outcome RouteError ApiKeyConfig
round_robin_select m model_id keys =
    let i = index_of (lookup model_id m.round_robin) in
    (
      record m { round_robin = insert model_id ((i + 1) % length keys) m.round_robin },
      index keys (i % length keys),
    )

-- `totalWeight`
unfoldable pub total_weight : List ApiKeyConfig → ℤ
total_weight [] = pos 0
total_weight (k ∷ ks) = k.weight +ℤ total_weight ks

-- `rand.Intn(n)`, which panics on a bound that is not positive.
unfoldable pub rand_intn : (ℕ → ℕ) → ℤ → Outcome RouteError ℕ
rand_intn intn (pos zero) = panicked
rand_intn intn (pos (suc n)) = ok (intn (suc n))
rand_intn intn (negsuc n) = panicked

-- The second loop of `weightedSelect`; `last` is `keys[len(keys)-1]`.
unfoldable pub pick : ℕ → ℤ → List ApiKeyConfig → ApiKeyConfig → ApiKeyConfig
pick rand_val cum_weight [] last = last
pick rand_val cum_weight (k ∷ ks) last =
    let rest = pick rand_val (cum_weight +ℤ k.weight) ks last in
    if ltb_ℤ (pos rand_val) (cum_weight +ℤ k.weight) then k else rest

abbrev pub is_zero : ℤ → Bool
is_zero (pos zero) = true
is_zero _ = false

unfoldable pub weighted_select : (ℕ → ℕ) → List ApiKeyConfig → Outcome RouteError ApiKeyConfig
weighted_select intn keys =
    if is_zero (total_weight keys) then rand_intn intn (pos (length keys)) >>= index keys else do
      rand_val ← rand_intn intn (total_weight keys)
      last ← index keys (length keys - 1)
      ok (pick rand_val (pos 0) keys last)

-- The `switch` of `SelectAPIKey`.
unfoldable pub balance :
    RouteManager
    → (ℕ → ℕ)
    → String
    → String
    → List ApiKeyConfig
    → RouteManager × Outcome RouteError ApiKeyConfig
balance m intn model_id load_balancer keys =
    if load_balancer == load_balancer_round_robin
    then round_robin_select m model_id keys
    else if load_balancer == load_balancer_random
    then (m, rand_intn intn (pos (length keys)) >>= index keys)
    else if load_balancer == load_balancer_weighted
    then (m, weighted_select intn keys)
    else (m, index keys 0)

-- `SelectAPIKey` once the rule is at hand.
unfoldable pub select_from :
    RouteManager → (ℕ → ℕ) → String → RouteRule → RouteManager × Outcome RouteError ApiKeyConfig
select_from m intn model_id rule =
    let keys = active_keys rule.api_keys in
    if eqb (length keys) 0
    then (m, err (no_active_key model_id))
    else balance m intn model_id rule.load_balancer keys

unfoldable pub select_api_key :
    RouteManager → (ℕ → ℕ) → String → RouteManager × Outcome RouteError ApiKeyConfig
select_api_key m intn model_id = elim (get_rule m model_id >>= deref) [
  | ok rule ↦ select_from m intn model_id rule
  | err e ↦ (m, err e)
  | panicked ↦ (m, panicked)
]
