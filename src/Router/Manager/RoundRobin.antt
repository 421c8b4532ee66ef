-- ===== src/Router/Manager/RoundRobin.antt =====
-- `roundRobinSelect` of internal/router/manager.go over successive requests.
use native.Mathlib.Nat.{mod-lt, mod-add-mod, add-mod-mod, add-mod_right, mod-eq_of_lt, add-zero}
use llmapi_gate_way.Common.{
  ℕ, zero, suc, ◌+◌, ◌-◌, ◌%◌, ◌<◌, String, ◌≡◌, refl, sym, ap, ◌∙◌, some, arith, length, eqb_pos,
}
use llmapi_gate_way.Common.Assoc.{lookup, lookup-insert_self}
use llmapi_gate_way.Router.Types.{
  load_balancer_round_robin, ApiKeyConfig, RouteRule, RouteError, Outcome, index,
}
use llmapi_gate_way.Router.Manager.{
  RouteManager, active_keys, index_of, round_robin_select, balance, select_from, select_api_key,
}
use llmapi_gate_way.Router.Manager.Selection.{select_api_key-found}

-- The answer to the request that comes after `j` others for the model.
abbrev pub answer : RouteManager → (ℕ → ℕ) → String → ℕ → Outcome RouteError ApiKeyConfig
answer m intn model_id zero = (select_api_key m intn model_id).1
answer m intn model_id (suc j) = answer (select_api_key m intn model_id).0 intn model_id j

-- Where the turn stands.
abbrev pub turn : RouteManager → String → ℕ
turn m model_id = index_of (lookup model_id m.round_robin)

select-round_robin_select :
    (m : RouteManager) (intn : ℕ → ℕ) (model_id : String) (rule : RouteRule)
    → lookup model_id m.rules ≡ some (some rule)
    → rule.load_balancer ≡ load_balancer_round_robin
    → 0 < length (active_keys rule.api_keys)
    → select_api_key m intn model_id ≡ round_robin_select m model_id (active_keys rule.api_keys)
unfolding select_from balance
select-round_robin_select m intn model_id rule found rr some_key =
    select_api_key-found m intn model_id rule found ∙ rw (eqb_pos _ some_key, rr) refl

turn_next : (i j n : ℕ) → ((i + 1) % n + j) % n ≡ (i + suc j) % n
turn_next i j n =
    mod-add-mod (i + 1) n j ∙ ap (λ k. k % n) (let e : i + 1 + j ≡ i + suc j = omega arith in e)

turn_reaches : (i p n : ℕ) → p < n → (i + (p + (n - i % n)) % n) % n ≡ p
turn_reaches i p n h =
    let below : i % n < n = mod-lt i (omega arith) in
    let whole : i % n + (p + (n - i % n)) ≡ p + n = omega arith in
    add-mod-mod i (p + (n - i % n)) n
    ∙ sym (mod-add-mod i n (p + (n - i % n)))
    ∙ ap (λ k. k % n) whole
    ∙ add-mod_right p n
    ∙ mod-eq_of_lt h

-- Requests for a model whose rule balances by round robin get its active keys in turn: the answer
-- after `j` others is the active key at the turn's position plus `j`, modulo their number.
pub answer-turn :
    (m : RouteManager) (intn : ℕ → ℕ) (model_id : String) (rule : RouteRule) (j : ℕ)
    → lookup model_id m.rules ≡ some (some rule)
    → rule.load_balancer ≡ load_balancer_round_robin
    → 0 < length (active_keys rule.api_keys)
    → answer m intn model_id j
      ≡ index
          (active_keys rule.api_keys)
          ((turn m model_id + j) % length (active_keys rule.api_keys))
unfolding round_robin_select
answer-turn m intn model_id rule zero found rr h =
    rw (answer, select-round_robin_select m intn model_id rule found rr h, add-zero) refl
answer-turn m intn model_id rule (suc j) found rr h =
    rw (answer, select-round_robin_select m intn model_id rule found rr h)
      (answer-turn (round_robin_select m model_id (active_keys rule.api_keys)).0 intn model_id rule
          j found rr h
        ∙ rw (lookup-insert_self, turn_next) refl)

-- So any `n` successive requests, `n` the number of active keys, reach each of these keys: for every
-- position there is one of the requests that gets the key there.
pub answer-reaches :
    (m : RouteManager) (intn : ℕ → ℕ) (model_id : String) (rule : RouteRule) (p : ℕ)
    → lookup model_id m.rules ≡ some (some rule)
    → rule.load_balancer ≡ load_balancer_round_robin
    → p < length (active_keys rule.api_keys)
    → (j : ℕ) × (j < length (active_keys rule.api_keys))
      × (answer m intn model_id j ≡ index (active_keys rule.api_keys) p)
answer-reaches m intn model_id rule p found rr h =
    let n = length (active_keys rule.api_keys) in
    let i = turn m model_id in
    let j = (p + (n - i % n)) % n in
    (
      j,
      mod-lt _ (omega arith),
      answer-turn m intn model_id rule j found rr (omega arith)
          ∙ ap (index (active_keys rule.api_keys)) (turn_reaches i p n h),
    )
