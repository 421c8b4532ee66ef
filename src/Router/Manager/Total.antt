-- ===== src/Router/Manager/Total.antt =====
-- `SelectAPIKey` of internal/router/manager.go neither fails nor panics where the model's rule has an
-- active key and no weight is negative.
use native.Mathlib.Nat.{mod-lt}
use llmapi_gate_way.Common.{
  List-cases, eqb_pos, ℕ, zero, suc, ◌+◌, ◌-◌, ◌<◌, String, ◌≡◌, refl, ◌≢◌, ◌⊎◌, inl, inr, some,
  List, [], ◌∷◌, arith, ◌==◌, Bool-cases, length, get_elem?-in_range, All,
}
use llmapi_gate_way.Common.Int.{pos, pos_part, ◌+ℤ◌, ◌≤ℤ◌}
use llmapi_gate_way.Common.Assoc.{lookup}
use llmapi_gate_way.Router.Types.{
  load_balancer_round_robin, load_balancer_random, load_balancer_weighted, ApiKeyConfig, RouteRule,
  RouteError, no_active_key, Outcome, ok, err, ◌>>=◌, index,
}
use llmapi_gate_way.Router.Manager.{
  RouteManager, active_keys, round_robin_select, total_weight, rand_intn, pick, weighted_select,
  balance, select_from, select_api_key,
}
use llmapi_gate_way.Router.Manager.Selection.{select_api_key-found}

-- `rand.Intn(n)` lies in [0, n).
abbrev pub IsDraw : (ℕ → ℕ) → Type 0
IsDraw intn = (n : ℕ) → 0 < n → intn n < n

abbrev pub NoNegative : List ApiKeyConfig → Type 0
NoNegative = All λ k. pos 0 ≤ℤ k.weight

abbrev Gives : Outcome RouteError ApiKeyConfig → Type 0
Gives r = (k : ApiKeyConfig) × (r ≡ ok k)

index-Gives : (keys : List ApiKeyConfig) (i : ℕ) → i < length keys → Gives (index keys i)
index-Gives keys i h = let (k, e) = get_elem?-in_range keys i h in (k, rw e)

rand_intn-ok :
    (intn : ℕ → ℕ) (n : ℕ)
    → IsDraw intn
    → 0 < n
    → (r : ℕ) × (rand_intn intn (pos n) ≡ ok r) × (r < n)
unfolding rand_intn
rand_intn-ok intn zero d h = elim h [ ]
rand_intn-ok intn (suc n) d h = (intn (suc n), refl, d (suc n) h)

random-Gives :
    (intn : ℕ → ℕ) (keys : List ApiKeyConfig)
    → IsDraw intn
    → 0 < length keys
    → Gives (rand_intn intn (pos (length keys)) >>= index keys)
random-Gives intn keys d h =
    let (i, e, below) = rand_intn-ok intn (length keys) d h in rw e (index-Gives keys i below)

pub total_weight-nonneg :
    (keys : List ApiKeyConfig) → NoNegative keys → (n : ℕ) × (total_weight keys ≡ pos n)
unfolding total_weight ◌+ℤ◌
total_weight-nonneg [] h = (0, refl)
total_weight-nonneg (k ∷ ks) h =
    let (n, e) = total_weight-nonneg ks h.1 in (pos_part k.weight + n, rw e (ground arith))

weighted_select-Gives :
    (intn : ℕ → ℕ) (keys : List ApiKeyConfig)
    → IsDraw intn
    → NoNegative keys
    → 0 < length keys
    → Gives (weighted_select intn keys)
unfolding weighted_select
weighted_select-Gives intn keys d nonneg h = go (total_weight-nonneg keys nonneg)
  where
    go : ((n : ℕ) × (total_weight keys ≡ pos n)) → Gives (weighted_select intn keys)
    go (zero, e) = rw e (random-Gives intn keys d h)
    go (suc n, e) =
        let (r, drawn, _) = rand_intn-ok intn (suc n) d (omega arith) in
        let (last, at_end) = index-Gives keys (length keys - 1) (omega arith) in
        rw (e, drawn, at_end) (pick r (pos 0) keys last, refl)

balance-Gives :
    (m : RouteManager) (intn : ℕ → ℕ) (model_id lb : String) (keys : List ApiKeyConfig)
    → IsDraw intn
    → NoNegative keys
    → 0 < length keys
    → Gives (balance m intn model_id lb keys).1
unfolding balance round_robin_select
balance-Gives m intn model_id lb keys d nonneg h =
    elim (Bool-cases (lb == load_balancer_round_robin)) [
      | inl rr ↦ rw rr (index-Gives keys _ (mod-lt _ h))
      | inr no_rr ↦ elim (Bool-cases (lb == load_balancer_random)) [
        | inl rnd ↦ rw (no_rr, rnd) (random-Gives intn keys d h)
        | inr no_rnd ↦ elim (Bool-cases (lb == load_balancer_weighted)) [
          | inl w ↦ rw (no_rr, no_rnd, w) (weighted_select-Gives intn keys d nonneg h)
          | inr no_w ↦ rw (no_rr, no_rnd, no_w) (index-Gives keys 0 h)
        ]
      ]
    ]

-- Where the table has a rule for the model, `SelectAPIKey` reports that no key is active exactly when
-- none of the rule's is, and otherwise gives a key. The active keys must have no negative weight, and
-- `rand.Intn` must stay below its bound.
pub select_api_key-total :
    (m : RouteManager) (intn : ℕ → ℕ) (model_id : String) (rule : RouteRule)
    → lookup model_id m.rules ≡ some (some rule)
    → IsDraw intn
    → NoNegative (active_keys rule.api_keys)
    → ((active_keys rule.api_keys ≡ [])
        × ((select_api_key m intn model_id).1 ≡ err (no_active_key model_id)))
      ⊎ ((active_keys rule.api_keys ≢ [])
          × (k : ApiKeyConfig) × ((select_api_key m intn model_id).1 ≡ ok k))
unfolding select_from
select_api_key-total m intn model_id rule found d nonneg =
    rw (select_api_key-found m intn model_id rule found)
      (elim (List-cases (active_keys rule.api_keys)) [
        | inl empty ↦ inl (empty, rw empty)
        | inr (filled, some_key) ↦
            let given : Gives (select_from m intn model_id rule).1 =
              rw (eqb_pos _ some_key)
                (balance-Gives m intn model_id rule.load_balancer _ d nonneg some_key) in
            inr (filled, given.0, given.1)
      ])
