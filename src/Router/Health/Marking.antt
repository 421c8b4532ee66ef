-- ===== src/Router/Health/Marking.antt =====
-- A key that `MarkKeyFailed` of internal/router/health.go marks is not chosen any more.
use mathlib.Core.List.{Memᴰ}
use mathlib.Core.List.Memᴰ
use llmapi_gate_way.Common.{
  ℕ, String, ◌≡◌, refl, sym, ◌∙◌, ◌≢◌, inl, inr, some, List, [], ◌∷◌, ◌==◌, eq_iff, ne_of_eq_false,
  Bool-cases, some_inj, All,
}
use llmapi_gate_way.Common.Assoc.{lookup, lookup-insert_self}
use llmapi_gate_way.Router.Types.{key_status_active, key_status_failed, ApiKeyConfig, RouteRule, ok}
use llmapi_gate_way.Router.Manager.{RouteManager, get_rule, select_api_key}
use llmapi_gate_way.Router.Health.{mark_first, mark_key, mark_key_failed}
use llmapi_gate_way.Router.Manager.Selection.{select_api_key-chosen}

-- No two entries have the same key.
abbrev pub Distinct : List ApiKeyConfig → Type 0
Distinct [] = Unit {0}
Distinct (k ∷ ks) = All (λ k'. k'.key ≢ k.key) ks × Distinct ks

All-Memᴰ :
    (P : ApiKeyConfig → Type 0) (ks : List ApiKeyConfig) {k : ApiKeyConfig}
    → All P ks
    → Memᴰ k ks
    → P k
All-Memᴰ P [] h m = absurd (Memᴰ.not-nil m)
All-Memᴰ P (x ∷ ks) h m = elim (Memᴰ.cases_cons m) [
  | inl e ↦ rw e h.0
  | inr later ↦ All-Memᴰ P ks h.1 later
]

mark_first-status :
    (key status : String) (now : ℕ) (ks : List ApiKeyConfig) (k : ApiKeyConfig)
    → Distinct ks
    → Memᴰ k (mark_first key status now ks)
    → k.key ≡ key
    → k.status ≡ status
unfolding mark_first
mark_first-status key status now [] k distinct m e = absurd (Memᴰ.not-nil m)
mark_first-status key status now (x ∷ ks) k distinct m e = elim (Bool-cases (x.key == key)) [
  | inl here ↦ elim (Memᴰ.cases_cons (rw (here, mark_first) at m)) [
    | inl is ↦ rw is refl
    | inr later ↦
        absurd (
          All-Memᴰ (λ k'. k'.key ≢ x.key) ks distinct.0 later (e ∙ sym ((eq_iff x.key key).0 here)))
  ]
  | inr on ↦ elim (Memᴰ.cases_cons (rw (on, mark_first) at m)) [
    | inl is ↦ absurd (ne_of_eq_false x.key key on (rw is at e))
    | inr later ↦ mark_first-status key status now ks k distinct.1 later e
  ]
]

abbrev marked_rule : RouteRule → String → ℕ → RouteRule
marked_rule rule key now = record rule {
  api_keys = mark_first key key_status_failed now rule.api_keys;
}

mark_key_failed-lookup :
    (m : RouteManager) (now : ℕ) (model_id key : String) (rule : RouteRule)
    → lookup model_id m.rules ≡ some (some rule)
    → lookup model_id (mark_key_failed m now model_id key).0.rules
      ≡ some (some (marked_rule rule key now))
unfolding mark_key_failed mark_key get_rule
mark_key_failed-lookup m now model_id key rule found =
    rw (found, mark_key_failed, mark_key, get_rule)
      (lookup-insert_self model_id (some (marked_rule rule key now)) m.rules)

active-ne-failed : ◌≢◌ {A = String} key_status_active key_status_failed
active-ne-failed = ne_of_eq_false "active" "failed" refl

-- After a key was marked as failed in a model's rule, in which no two entries have the same key, no
-- choice for the model gives it, whatever the balancer and the draw.
pub mark_key_failed-select_api_key :
    (m : RouteManager) (now : ℕ) (model_id key : String) (rule : RouteRule) (intn : ℕ → ℕ)
    (k : ApiKeyConfig)
    → lookup model_id m.rules ≡ some (some rule)
    → Distinct rule.api_keys
    → (select_api_key (mark_key_failed m now model_id key).0 intn model_id).1 ≡ ok k
    → k.key ≢ key
mark_key_failed-select_api_key m now model_id key rule intn k found distinct chosen e =
    let m' = (mark_key_failed m now model_id key).0 in
    let ((rule', found', listed, active), kept) = select_api_key-chosen m' intn model_id k chosen in
    let marked : lookup model_id m'.rules ≡ some (some (marked_rule rule key now)) =
      mark_key_failed-lookup m now model_id key rule found in
    let same : rule' ≡ marked_rule rule key now = some_inj (some_inj (sym found' ∙ marked)) in
    let failed : k.status ≡ key_status_failed =
      mark_first-status key key_status_failed now rule.api_keys k distinct (rw same at listed) e in
    active-ne-failed (sym active ∙ failed)
