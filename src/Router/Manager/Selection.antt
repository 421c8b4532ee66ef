-- ===== src/Router/Manager/Selection.antt =====
-- What `SelectAPIKey` of internal/router/manager.go gives: an active key of the model's own rule, and
-- always one where the rule has one.
use mathlib.Core.Path.{subst}
use mathlib.Core.List.{Memᴰ}
use mathlib.Core.List.Memᴰ
use llmapi_gate_way.Common.{
  ℕ, zero, suc, ◌-◌, String, ◌≡◌, refl, ap, ◌∙◌, ◌≢◌, inl, inr, Bool, true, some, List, [], ◌∷◌,
  arith, ◌==◌, eq_iff, eqb, Bool-cases, Option-cases, length, get_elem?, keep,
}
use llmapi_gate_way.Common.Int.{ℤ, pos, ◌+ℤ◌, ltb_ℤ}
use llmapi_gate_way.Common.Assoc.{lookup}
use llmapi_gate_way.Router.Types.{
  Outcome-cases, key_status_active, load_balancer_round_robin, load_balancer_random,
  load_balancer_weighted, ApiKeyConfig, RouteRule, RouteError, Outcome, ok, err, panicked, ◌>>=◌,
  deref, index,
}
use llmapi_gate_way.Router.Manager.{
  RouteManager, get_rule, is_active, active_keys, round_robin_select, total_weight, rand_intn, pick,
  is_zero, weighted_select, balance, select_from, select_api_key,
}

pub bind-eq-ok {ℓ κ ν} :
    {E : Type ℓ} {A : Type κ} {B : Type ν} (r : Outcome E A) (f : A → Outcome E B) {b : B}
    → (r >>= f) ≡ ok b
    → (a : A) × (r ≡ ok a) × (f a ≡ ok b)
bind-eq-ok (ok a) f h = (a, refl, h)
bind-eq-ok (err e) f h = cc
bind-eq-ok panicked f h = cc

pub ok_inj {ℓ κ} : {E : Type ℓ} {A : Type κ} {a b : A} → ◌≡◌ {A = Outcome E A} (ok a) (ok b) → a ≡ b
ok_inj h = cc

module _ {ℓ} {A : Type ℓ} where
  get_elem?-Memᴰ : (xs : List A) (i : ℕ) {a : A} → get_elem? xs i ≡ some a → Memᴰ a xs
  get_elem?-Memᴰ [] i h = cc
  get_elem?-Memᴰ (x ∷ xs) zero h = Memᴰ.head (ground arith)
  get_elem?-Memᴰ (x ∷ xs) (suc i) h = Memᴰ.tail (get_elem?-Memᴰ xs i h)

  pub keep-Memᴰ :
      (p : A → Bool) {a : A} (xs : List A) → Memᴰ a (keep p xs) → Memᴰ a xs × (p a ≡ true)
  keep-Memᴰ p [] h = absurd (Memᴰ.not-nil h)
  keep-Memᴰ p (x ∷ xs) h = elim (Bool-cases (p x)) [
    | inl pass ↦ elim (Memᴰ.cases_cons (rw (pass, keep) at h)) [
      | inl e ↦ (Memᴰ.head e, rw e pass)
      | inr later ↦ let (m, q) = keep-Memᴰ p xs later in (Memᴰ.tail m, q)
    ]
    | inr drop ↦ let (m, q) = keep-Memᴰ p xs (rw (drop, keep) at h) in (Memᴰ.tail m, q)
  ]

index-Memᴰ :
    (xs : List ApiKeyConfig) (i : ℕ) {a : ApiKeyConfig}
    → index {E = RouteError} xs i ≡ ok a
    → Memᴰ a xs
index-Memᴰ xs i h = get_elem?-Memᴰ xs i (ground arith)

pick-Memᴰ :
    (r : ℕ) (cum : ℤ) (ks all : List ApiKeyConfig) (last : ApiKeyConfig)
    → Memᴰ last all
    → ((k : ApiKeyConfig) → Memᴰ k ks → Memᴰ k all)
    → Memᴰ (pick r cum ks last) all
unfolding pick
pick-Memᴰ r cum [] all last h inside = h
pick-Memᴰ r cum (k ∷ ks) all last h inside = elim (Bool-cases (ltb_ℤ (pos r) (cum +ℤ k.weight))) [
  | inl here ↦ rw here (inside k (Memᴰ.head refl))
  | inr on ↦ rw on (pick-Memᴰ r (cum +ℤ k.weight) ks all last h (λ k' m. inside k' (Memᴰ.tail m)))
]

weighted_select-Memᴰ :
    (intn : ℕ → ℕ) (keys : List ApiKeyConfig) {k : ApiKeyConfig}
    → weighted_select intn keys ≡ ok k
    → Memᴰ k keys
unfolding weighted_select
weighted_select-Memᴰ intn keys {k} h = elim (Bool-cases (is_zero (total_weight keys))) [
  | inl zero_total ↦
      let (i, _, e) =
        bind-eq-ok (rand_intn intn (pos (length keys))) (index keys) (rw zero_total at h) in
      index-Memᴰ keys i e
  | inr some_total ↦
      let (r, _, e) = bind-eq-ok (rand_intn intn (total_weight keys)) _ (rw some_total at h) in
      let (last, at_end, e') = bind-eq-ok (index keys (length keys - 1)) _ e in
      subst (λ a. Memᴰ a keys) (ok_inj e')
        (pick-Memᴰ r (pos 0) keys keys last (index-Memᴰ keys _ at_end) (λ _ h. h))
]

balance-Memᴰ :
    (m : RouteManager) (intn : ℕ → ℕ) (model_id lb : String) (keys : List ApiKeyConfig)
    {k : ApiKeyConfig}
    → (balance m intn model_id lb keys).1 ≡ ok k
    → Memᴰ k keys
unfolding balance round_robin_select
balance-Memᴰ m intn model_id lb keys h = elim (Bool-cases (lb == load_balancer_round_robin)) [
  | inl rr ↦ index-Memᴰ keys _ (rw rr at h)
  | inr no_rr ↦ elim (Bool-cases (lb == load_balancer_random)) [
    | inl rnd ↦
        let (i, _, e) =
          bind-eq-ok (rand_intn intn (pos (length keys))) (index keys) (rw (no_rr, rnd) at h) in
        index-Memᴰ keys i e
    | inr no_rnd ↦ elim (Bool-cases (lb == load_balancer_weighted)) [
      | inl w ↦ weighted_select-Memᴰ intn keys (rw (no_rr, no_rnd, w) at h)
      | inr no_w ↦ index-Memᴰ keys 0 (rw (no_rr, no_rnd, no_w) at h)
    ]
  ]
]

balance-rules :
    (m : RouteManager) (intn : ℕ → ℕ) (model_id lb : String) (keys : List ApiKeyConfig)
    → (balance m intn model_id lb keys).0.rules ≡ m.rules
unfolding balance round_robin_select
balance-rules m intn model_id lb keys = ground arith

-- With the rule at hand, `SelectAPIKey` is its second part.
pub select_api_key-found :
    (m : RouteManager) (intn : ℕ → ℕ) (model_id : String) (rule : RouteRule)
    → lookup model_id m.rules ≡ some (some rule)
    → select_api_key m intn model_id ≡ select_from m intn model_id rule
unfolding select_api_key get_rule
select_api_key-found m intn model_id rule e = rw (e, select_api_key, get_rule)

-- Without one it gives no key: an error, or a panic where the pointer is nil.
select_api_key-missing :
    (m : RouteManager) (intn : ℕ → ℕ) (model_id : String) (k : ApiKeyConfig)
    → ((rule : RouteRule) → lookup model_id m.rules ≢ some (some rule))
    → (select_api_key m intn model_id).1 ≢ ok k
unfolding select_api_key get_rule
select_api_key-missing m intn model_id k missing h = elim (Option-cases (lookup model_id m.rules)) [
  | inl e ↦ ground arith
  | inr (p, e) ↦ elim (Option-cases p) [
    | inl nil ↦ ground arith
    | inr (rule, e') ↦ missing rule (e ∙ ap some e')
  ]
]

select_from-Memᴰ :
    (m : RouteManager) (intn : ℕ → ℕ) (model_id : String) (rule : RouteRule) {k : ApiKeyConfig}
    → (select_from m intn model_id rule).1 ≡ ok k
    → Memᴰ k (active_keys rule.api_keys)
unfolding select_from
select_from-Memᴰ m intn model_id rule h =
    elim (Bool-cases (eqb (length (active_keys rule.api_keys)) 0)) [
      | inl empty ↦ absurd (ground arith)
      | inr filled ↦ balance-Memᴰ m intn model_id rule.load_balancer _ (rw filled at h)
    ]

select_from-rules :
    (m : RouteManager) (intn : ℕ → ℕ) (model_id : String) (rule : RouteRule)
    → (select_from m intn model_id rule).0.rules ≡ m.rules
unfolding select_from
select_from-rules m intn model_id rule =
    ground (arith, balance-rules m intn model_id rule.load_balancer (active_keys rule.api_keys))

select_api_key-rules :
    (m : RouteManager) (intn : ℕ → ℕ) (model_id : String)
    → (select_api_key m intn model_id).0.rules ≡ m.rules
unfolding select_api_key
select_api_key-rules m intn model_id = elim (Outcome-cases (get_rule m model_id >>= deref)) [
  | inl (rule, e) ↦ rw (e, select_api_key) (select_from-rules m intn model_id rule)
  | inr (inl (x, e)) ↦ rw (e, select_api_key)
  | inr (inr e) ↦ rw (e, select_api_key)
]

pub select_api_key-active :
    (m : RouteManager) (intn : ℕ → ℕ) (model_id : String)
    → ((k : ApiKeyConfig)
        → (select_api_key m intn model_id).1 ≡ ok k
        → (rule : RouteRule) × (lookup model_id m.rules ≡ some (some rule))
          × Memᴰ k rule.api_keys
          × (k.status ≡ key_status_active))
      × ((select_api_key m intn model_id).0.rules ≡ m.rules)
select_api_key-active m intn model_id = (
  λ k h. elim (Option-cases (lookup model_id m.rules)) [
    | inl e ↦ absurd (select_api_key-missing m intn model_id k (λ rule found. cc) h)
    | inr (p, e) ↦ elim (Option-cases p) [
      | inl nil ↦ absurd (select_api_key-missing m intn model_id k (λ rule found. cc) h)
      | inr (rule, e') ↦
          let found : lookup model_id m.rules ≡ some (some rule) = e ∙ ap some e' in
          let same = select_api_key-found m intn model_id rule found in
          let (listed, active) =
            keep-Memᴰ is_active rule.api_keys
              (select_from-Memᴰ m intn model_id rule (rw same at h)) in
          (rule, found, listed, (eq_iff k.status key_status_active).0 active)
    ]
  ],
  select_api_key-rules m intn model_id,
)

-- A key that `SelectAPIKey` gives is listed in the rule that the table holds for the model, and is
-- active. Whatever the call gives, the rule table stays as it was.
pub select_api_key-chosen :
    (m : RouteManager) (intn : ℕ → ℕ) (model_id : String) (k : ApiKeyConfig)
    → (select_api_key m intn model_id).1 ≡ ok k
    → ((rule : RouteRule) × (lookup model_id m.rules ≡ some (some rule))
        × Memᴰ k rule.api_keys
        × (k.status ≡ key_status_active))
      × ((select_api_key m intn model_id).0.rules ≡ m.rules)
select_api_key-chosen m intn model_id k chosen =
    let (listed, kept) = select_api_key-active m intn model_id in (listed k chosen, kept)
