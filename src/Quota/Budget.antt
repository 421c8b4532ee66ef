-- ===== src/Quota/Budget.antt =====
-- The balances of a user, an app and a model, and how the increments of internal/quota/manager.go
-- move them.
use llmapi_gate_way.Common.{
  String, ◌≡◌, refl, sym, ap, ◌∙◌, ◌⊎◌, inl, inr, Bool, true, false, none, List, arith, ◌==◌,
  eq_refl, eq_false_of_ne, if◌then◌else◌, Bool-cases,
}
use llmapi_gate_way.Common.Int.{ℤ, ◌+ℤ◌, ◌-ℤ◌, ◌≤ℤ◌, int_laws}
use llmapi_gate_way.Common.Result.{Result, done, Result-cases, bind-done, done_inj}
use llmapi_gate_way.Adapter.Types.{Json}
use llmapi_gate_way.Quota.Types.{
  quota_level_user, quota_level_app, quota_level_model, QuotaReservation,
}
use llmapi_gate_way.Quota.Redis.{Redis, RedisLaws}
use llmapi_gate_way.Quota.Manager.{
  build_key, shortage, bytes, quotas_left, reservation_key, Keys, keys_of, Increment, on_each, read,
  left_to_reserve, increments, check_quota, save_reservation,
}
use llmapi_gate_way.Quota.Increments.{
  delta, increments-read, build_key-ne-reservation_key, user-ne-app, user-ne-model, app-ne-model,
}

-- Which of the keys it is.
abbrev pub Tests : Keys → String → Bool → Bool → Bool → Type 0
Tests keys key x y z =
    ((keys.user == key) ≡ x) × ((keys.app == key) ≡ y) × ((keys.model == key) ≡ z)

abbrev pub IsOne : Keys → String → Type 0
IsOne keys key =
    Tests keys key true false false
    ⊎ (Tests keys key false true false ⊎ Tests keys key false false true)

pub delta-each :
    (keys : Keys) (key f field : String) (n : ℤ) (rest : List Increment)
    → IsOne keys key
    → delta key field (on_each keys f n rest)
      ≡ (if f == field then n +ℤ delta key field rest else delta key field rest)
unfolding delta
delta-each keys key f field n rest one = elim (Bool-cases (f == field)) [
  | inl same ↦ elim one [
    | inl (a, b, c) ↦ rw (delta, a, b, c, same) refl
    | inr (inl (a, b, c)) ↦ rw (delta, a, b, c, same) refl
    | inr (inr (a, b, c)) ↦ rw (delta, a, b, c, same) refl
  ]
  | inr other ↦ elim one [
    | inl (a, b, c) ↦ rw (delta, a, b, c, other) refl
    | inr (inl (a, b, c)) ↦ rw (delta, a, b, c, other) refl
    | inr (inr (a, b, c)) ↦ rw (delta, a, b, c, other) refl
  ]
]

pub user-IsOne : (x y z : String) → IsOne (keys_of x y z) (build_key quota_level_user x)
unfolding keys_of
user-IsOne x y z = inl (
  eq_refl (build_key quota_level_user x),
  eq_false_of_ne _ _ (λ e. user-ne-app x y (sym e)),
  eq_false_of_ne _ _ (λ e. user-ne-model x z (sym e)),
)

pub app-IsOne : (x y z : String) → IsOne (keys_of x y z) (build_key quota_level_app y)
unfolding keys_of
app-IsOne x y z = inr (
    inl (
      eq_false_of_ne _ _ (user-ne-app x y),
      eq_refl (build_key quota_level_app y),
      eq_false_of_ne _ _ (λ e. app-ne-model y z (sym e)),
    ))

pub model-IsOne : (x y z : String) → IsOne (keys_of x y z) (build_key quota_level_model z)
unfolding keys_of
model-IsOne x y z = inr (
    inr (
      eq_false_of_ne _ _ (user-ne-model x z),
      eq_false_of_ne _ _ (app-ne-model y z),
      eq_refl (build_key quota_level_model z),
    ))

shortage-none :
    (user app model tokens : ℤ)
    → shortage user app model tokens ≡ none
    → (tokens ≤ℤ user) × (tokens ≤ℤ app) × (tokens ≤ℤ model)
unfolding shortage
shortage-none user app model tokens h = ground arith

module _ {S : Type 0} (r : Redis S) where
  -- What the store has for a key: its total, the tokens used and the tokens reserved.
  abbrev pub Balance : S → String → ℤ → ℤ → ℤ → Type 0
  Balance s key t u v =
      (read r s key "total" ≡ done t)
      × (read r s key "used" ≡ done u)
      × (read r s key "reserved" ≡ done v)

  pub left-Balance :
      (s : S) (key : String) (l : ℤ)
      → left_to_reserve r s key ≡ done l
      → (t : ℤ) × (u : ℤ) × (v : ℤ) × Balance s key t u v × (t -ℤ u -ℤ v ≡ l)
  unfolding left_to_reserve
  left-Balance s key l h =
      let (t, et, h1) = bind-done (read r s key "total") _ h in
      let (u, eu, h2) = bind-done (read r s key "used") _ h1 in
      let (v, ev, h3) = bind-done (read r s key "reserved") _ h2 in
      (t, u, v, (et, eu, ev), done_inj h3)

  quotas_left-each :
      (left : S → String → Result String ℤ) (s : S) (keys : Keys) (a b c : ℤ)
      → quotas_left r left s keys ≡ done (a, (b, c))
      → (left s keys.user ≡ done a) × (left s keys.app ≡ done b) × (left s keys.model ≡ done c)
  unfolding quotas_left
  quotas_left-each left s keys a b c h =
      let (a', ea, h1) = bind-done (left s keys.user) _ h in
      let (b', eb, h2) = bind-done (left s keys.app) _ h1 in
      let (c', ec, h3) = bind-done (left s keys.model) _ h2 in
      let e = done_inj h3 in
      (ea ∙ ap (λ p. done p.0) e, eb ∙ ap (λ p. done p.1.0) e, ec ∙ ap (λ p. done p.1.1) e)

  -- A check that passes found enough of each.
  pub check_quota-enough :
      (left : S → String → Result String ℤ) (s : S) (keys : Keys) (n : ℤ)
      → check_quota r left s keys n ≡ none
      → (a : ℤ) × (b : ℤ) × (c : ℤ) × ((left s keys.user ≡ done a)
          × (left s keys.app ≡ done b)
          × (left s keys.model ≡ done c))
        × ((n ≤ℤ a) × (n ≤ℤ b) × (n ≤ℤ c))
  unfolding check_quota
  check_quota-enough left s keys n h = elim (Result-cases (quotas_left r left s keys)) [
    | inl ((a, (b, c)), e) ↦ (
      a,
      b,
      c,
      quotas_left-each left s keys a b c e,
      shortage-none a b c n (rw (e, check_quota) at h),
    )
    | inr (x, e) ↦ cc (rw (e, check_quota) at h)
  ]

pub within : (t u v n l : ℤ) → t -ℤ u -ℤ v ≡ l → n ≤ℤ l → u +ℤ (v +ℤ n) ≤ℤ t
within t u v n l e h = grind (int_laws, e, h)

module _ {S : Type 0} (r : Redis S) (laws : RedisLaws r) where
  -- A counter after increments that come to `d` for it.
  pub moved :
      (ups : List Increment) (s : S) (key field : String) (x d y : ℤ)
      → (increments r s ups).1 ≡ none
      → delta key field ups ≡ d
      → x +ℤ d ≡ y
      → read r s key field ≡ done x
      → read r (increments r s ups).0 key field ≡ done y
  moved ups s key field x d y fine e sum h =
      rw (e, sum) at (increments-read r laws ups s key field x fine h)

  -- Saving a reservation leaves every quota alone.
  pub save_reservation-read :
      (json : Json QuotaReservation) (s : S) (id : String) (res : QuotaReservation)
      (level name field : String)
      → read r (save_reservation r json s id res) (build_key level name) field
        ≡ read r s (build_key level name) field
  unfolding save_reservation
  save_reservation-read json s id res level name field =
      elim (Result-cases (r.set s (reservation_key id) (bytes (json.marshal res)))) [
        | inl (s', e) ↦
            rw (e, save_reservation)
              (rw
                (laws.hget-set s s' (reservation_key id) (bytes (json.marshal res))
                  (build_key level name) field (build_key-ne-reservation_key level name id) e)
                refl)
        | inr (x, e) ↦ rw (e, save_reservation) refl
      ]
