-- ===== src/Router/Failover.antt =====
-- internal/router/failover.go: the four levels at which a request is tried. The circuit breaker is
-- the interface of that file; it, the executor that sends the request, and the random source work on
-- one state `S`, the world of the executor. `ExecuteWithFailover` takes and returns the route manager
-- beside it. No other goroutine changes the rules during the run.
pub mod Trace
pub mod Keeps
pub mod Protocol
pub mod Guarded
mod Tests
use Prim.Native.String.{len, slice, ◌++◌ as concat}
use llmapi_gate_way.Common.{
  ℕ, zero, suc, ◌+◌, ◌-◌, ◌*◌, ◌/◌, ◌%◌, ◌≤◌, ◌<◌, min, String, ◌≡◌, refl, sym, ap, ◌∙◌, ◌≢◌, ◌↔◌,
  ◌⊎◌, inl, inr, Bool, true, false, not, ◌&&◌, ◌||◌, Option, none, some, List, [], ◌∷◌, ◌++◌, map,
  arith, ◌==◌, eq_iff, eq_refl, eq_false_of_ne, ltb, leb, eqb, if◌then◌else◌, ltb→lt, lt→ltb,
  eqb_iff, Bool-cases, Option-cases, length, get_elem?, modify, replicate, length-append,
  length-modify, length-replicate, length-map, get_elem?-in_range, All, keep, List-cases, eqb_pos,
}
use llmapi_gate_way.Common.Int.{
  ℤ, pos, negsuc, pos_part, neg_part, sub_ℕ, ◌+ℤ◌, ◌-ℤ◌, ◌≤ℤ◌, ltb_ℤ, leb_ℤ, +ℤ_parts, -ℤ_parts,
  eq_of_parts, int_laws,
}
use llmapi_gate_way.Common.Assoc.{
  Assoc, lookup, insert, delete, lookup-insert, lookup-delete, lookup-insert_self, lookup-insert_ne,
  assoc_laws,
}
use llmapi_gate_way.Common.Time.{Time, zero_time, at, second, max_duration, saturate, since, unix}
use llmapi_gate_way.Common.Float.{Float64}
use llmapi_gate_way.Router.Types.{
  provider_cursor, provider_kiro, provider_antigravity, key_status_active, key_status_cooldown,
  key_status_failed, load_balancer_round_robin, load_balancer_random, load_balancer_weighted,
  ApiKeyConfig, FallbackConfig, HealthCheckConfig, RouteRule, RouteUpdateEvent, RouteError,
  no_route_rule, no_active_key, Outcome, ok, err, panicked, ◌>>=◌, deref, index,
}
use llmapi_gate_way.Router.Manager.{
  RouteManager, new_route_manager, store_rule, load_rules, apply_update, get_rule, is_active,
  active_keys, index_of, round_robin_select, total_weight, rand_intn, pick, is_zero,
  weighted_select, balance, select_from, select_api_key,
}

-- Why a level failed. `execution` is an error of the executor's.
pub data FailoverError (E : Type 0) : Type 0 where
  route : RouteError → FailoverError E
  circuit_open : String → FailoverError E
  execution : E → FailoverError E
  backup_keys_failed : String → FailoverError E
  alternatives_failed : String → FailoverError E
  no_fallback : String → FailoverError E

-- The calls that the executor's world answers: those of `CircuitBreaker`, the request itself
-- (`none` is a nil error), and the values of `rand.Intn` for one selection.
pub record World (S E : Type 0) : Type 0 where
  pub allow_request : String → S → S × Bool
  pub record_success : String → S → S
  pub record_failure : String → S → S
  pub execute : String → S → S × Option E
  pub rand : S → S × (ℕ → ℕ)

-- `maskKey`, over the key's bytes: the first and last four with stars between.
unfoldable pub mask_key : String → String
mask_key key =
    if ltb (len key) 8
    then "***"
    else concat (slice key 0 4) (concat "***" (slice key (len key - 4) (len key)))

-- `rule.APIKeys` from index 1 on.
abbrev pub backups : List ApiKeyConfig → List ApiKeyConfig
backups [] = []
backups (k ∷ ks) = ks

-- `!(fallback.Level < 2)`
abbrev pub is_alternative : FallbackConfig → Bool
is_alternative f = not (ltb_ℤ f.level (pos 2))

-- `fallback.Level == 3`
abbrev pub is_last_resort : FallbackConfig → Bool
is_last_resort f = leb_ℤ f.level (pos 3) && leb_ℤ (pos 3) f.level

module _ {S E : Type 0} (world : World S E) where
  -- The route manager and the world, passed through every call.
  abbrev pub State : Type 0
  State = RouteManager × S

  -- `SelectAPIKey` with the values of the random source.
  unfoldable pub select : String → State → State × Outcome RouteError ApiKeyConfig
  select model_id (m, s) =
      let (s', intn) = world.rand s in
      let (m', chosen) = select_api_key m intn model_id in ((m', s'), chosen)

  -- Run the request on a key that the breaker let through, and report the result to the breaker.
  unfoldable pub attempt : String → S → S × Option E
  attempt key s =
      let (s', result) = world.execute key s in
      elim result [
        | none ↦ (world.record_success key s', none)
        | some e ↦ (world.record_failure key s', some e)
      ]

  -- The breaker is asked, and a key that it lets through is tried: `none` is a refusal.
  unfoldable pub try_key : ApiKeyConfig → S → S × Option (Option E)
  try_key k s =
      let (s', allowed) = world.allow_request k.key s in
      let tried = attempt k.key s' in if allowed then (tried.0, some tried.1) else (s', none)

  unfoldable pub try_primary_key : String → State → State × Outcome (FailoverError E) (Unit {0})
  try_primary_key model_id st =
      let ((m, s), chosen) = select model_id st in
      elim chosen [
        | ok k ↦
            (let (s', tried) = try_key k s in
              (
                (m, s'),
                elim tried [
                  | none ↦ err (circuit_open (mask_key k.key))
                  | some none ↦ ok tt
                  | some (some e) ↦ err (execution e)
                ],
              ))
        | err e ↦ ((m, s), err (route e))
        | panicked ↦ ((m, s), panicked)
      ]

  -- The key was let through and its request succeeded; anything else is a `continue`.
  abbrev pub succeeded : Option (Option E) → Bool
  succeeded (some none) = true
  succeeded _ = false

  -- The loop of `tryBackupKeys`; the result says whether a key succeeded.
  unfoldable pub backup_loop : List ApiKeyConfig → S → S × Bool
  backup_loop [] s = (s, false)
  backup_loop (k ∷ ks) s = elim (is_active k) [
    | true ↦
        (let (s', tried) = try_key k s in
          elim (succeeded tried) [ true ↦ (s', true) | false ↦ backup_loop ks s' ])
    | false ↦ backup_loop ks s
  ]

  -- A level that needs the model's rule: without one it fails, on a nil rule it panics.
  unfoldable pub with_rule :
      String
      → State
      → (RouteRule → State × Outcome (FailoverError E) (Unit {0}))
      → State × Outcome (FailoverError E) (Unit {0})
  with_rule model_id st go = elim (get_rule st.0 model_id >>= deref) [
    | ok rule ↦ go rule
    | err e ↦ (st, err (route e))
    | panicked ↦ (st, panicked)
  ]

  unfoldable pub try_backup_keys : String → State → State × Outcome (FailoverError E) (Unit {0})
  try_backup_keys model_id (m, s) =
      with_rule model_id (m, s)
        λ rule.
          let (s', done) = backup_loop (backups rule.api_keys) s in
          ((m, s'), if done then ok tt else err (backup_keys_failed model_id))

  -- The loop of `tryAlternativeModels` and of `tryFallbackModel`, which differ in the entries that
  -- they take and in the error at the end.
  unfoldable pub chain_loop :
      (FallbackConfig → Bool)
      → FailoverError E
      → List FallbackConfig
      → State
      → State × Outcome (FailoverError E) (Unit {0})
  chain_loop wanted failure [] st = (st, err failure)
  chain_loop wanted failure (f ∷ fs) st = elim (wanted f) [
    | true ↦
        (let ((m, s), chosen) = select f.model_id st in
          elim chosen [
            | ok k ↦
                (let (s', tried) = try_key k s in
                  elim (succeeded tried) [
                    | true ↦ ((m, s'), ok tt)
                    | false ↦ chain_loop wanted failure fs (m, s')
                  ])
            | err e ↦ chain_loop wanted failure fs (m, s)
            | panicked ↦ ((m, s), panicked)
          ])
    | false ↦ chain_loop wanted failure fs st
  ]

  unfoldable pub try_alternative_models :
      String → State → State × Outcome (FailoverError E) (Unit {0})
  try_alternative_models model_id st =
      with_rule model_id st
        λ rule. chain_loop is_alternative (alternatives_failed model_id) rule.fallback_chain st

  unfoldable pub try_fallback_model : String → State → State × Outcome (FailoverError E) (Unit {0})
  try_fallback_model model_id st =
      with_rule model_id st
        λ rule. chain_loop is_last_resort (no_fallback model_id) rule.fallback_chain st

  -- The next level, if this one gave an error.
  abbrev pub or_else :
      State × Outcome (FailoverError E) (Unit {0})
      → (State → State × Outcome (FailoverError E) (Unit {0}))
      → State × Outcome (FailoverError E) (Unit {0})
  or_else (st, ok u) next = (st, ok u)
  or_else (st, err e) next = next st
  or_else (st, panicked) next = (st, panicked)

  unfoldable pub execute_with_failover :
      String → State → State × Outcome (FailoverError E) (Unit {0})
  execute_with_failover model_id st =
      or_else
        (or_else (or_else (try_primary_key model_id st) (try_backup_keys model_id))
          (try_alternative_models model_id))
        (try_fallback_model model_id)
