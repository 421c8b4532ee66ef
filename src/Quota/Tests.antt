-- ===== src/Quota/Tests.antt =====
-- A store in memory, and runs of the operations on it.
use llmapi_gate_way.Common.{
  String, ◌≡◌, refl, ◌≢◌, ◌⊎◌, inl, inr, false, ◌&&◌, Option, none, some, ◌==◌, eq_refl,
  eq_false_of_ne, if◌then◌else◌, Bool-cases,
}
use llmapi_gate_way.Common.Int.{ℤ, pos, ◌+ℤ◌, ◌-ℤ◌}
use llmapi_gate_way.Common.Time.{at}
use llmapi_gate_way.Common.Result.{done_inj, done, failed}
use llmapi_gate_way.Adapter.Types.{Json}
use llmapi_gate_way.Quota.Types.{
  quota_level_user, quota_level_app, quota_level_model, reservation_status_pending,
  QuotaReservation, redis,
}
use llmapi_gate_way.Quota.Redis.{Redis, number, RedisLaws}
use llmapi_gate_way.Quota.Manager.{
  build_key, shortage, quotas_left, keys_of, left_to_reserve, left_to_deduct, increments,
  check_quota, deduct_script, reserve_script, settle_script, reserve_quota, settle, settle_quota,
  deduct_quota,
}
use llmapi_gate_way.Quota.Budget.{Balance}
use llmapi_gate_way.Quota.Reserve.{Reserved, reserve_quota-Reserved}
use llmapi_gate_way.Quota.Refuse.{reserve_quota-refused}
use llmapi_gate_way.Quota.Settle.{Deducted, deduct_quota-Deducted, settle_quota-Balance}

-- The hashes and the plain values.
abbrev Store : Type 0
Store = (String → String → Option ℤ) × (String → Option String)

abbrev add : Store → String → String → ℤ → Store
add s key field n =
    (λ k f. if (key == k) && (field == f) then some (number (s.0 key field) +ℤ n) else s.0 k f, s.1)

abbrev write : Store → String → String → Store
write s key text = (s.0, λ k. if key == k then some text else s.1 k)

abbrev memory : Redis Store
memory = record {
  hget = λ s key field. done (s.0 key field);
  hincrby = λ s key field n. done (add s key field n);
  get = λ s key. done (s.1 key);
  set = λ s key text. done (write s key text);
}

other : (key k field f : String) → (key ≢ k) ⊎ (field ≢ f) → ((key == k) && (field == f)) ≡ false
other key k field f differs = elim differs [
  | inl h ↦ rw (eq_false_of_ne key k h) refl
  | inr h ↦ elim (Bool-cases (key == k)) [
    | inl same ↦ rw (same, eq_false_of_ne field f h) refl
    | inr apart ↦ rw apart refl
  ]
]

memory-RedisLaws : RedisLaws memory
memory-RedisLaws = record {
  hget-hincrby = λ s s' key field n v e got.
      rw (← done_inj e, ← done_inj got, eq_refl key, eq_refl field) refl;
  hget-hincrby_other = λ s s' key field key' field' n differs e.
      rw (← done_inj e, other key key' field field' differs) refl;
  get-set = λ s s' key text e. rw (← done_inj e, eq_refl key) refl;
  hget-set = λ s s' key text key' field differs e. rw (← done_inj e) refl;
}

abbrev reservation : QuotaReservation
reservation = record {
  id = "r1";
  user_id = "u";
  app_id = "a";
  model_id = "m";
  reserved_tokens = pos 30;
  actual_tokens = pos 0;
  status = reservation_status_pending;
  created_at = at 5;
  settled_at = none;
}

abbrev json : Json QuotaReservation
json = record { marshal = λ x. done "text"; unmarshal = λ text. done reservation }

-- Every quota has a total of 100 tokens, of which 20 are used.
abbrev store : Store
store = (
  λ key field.
      if field == "total" then some (pos 100) else if field == "used" then some (pos 20) else none,
  λ key. none,
)

reserve-fine : (reserve_quota memory json "r1" 5 store "u" "a" "m" (pos 30)).1 ≡ done "r1"
unfolding reserve_quota reserve_script check_quota quotas_left left_to_reserve shortage increments
    ◌-ℤ◌ keys_of
reserve-fine = refl

reserve_quota-Reserved_example :
    Reserved memory store
      (reserve_quota memory json "r1" 5 store "u" "a" "m" (pos 30)).0
      (build_key quota_level_user "u")
      (pos 30)
    × Reserved memory store
        (reserve_quota memory json "r1" 5 store "u" "a" "m" (pos 30)).0
        (build_key quota_level_app "a")
        (pos 30)
    × Reserved memory store
        (reserve_quota memory json "r1" 5 store "u" "a" "m" (pos 30)).0
        (build_key quota_level_model "m")
        (pos 30)
reserve_quota-Reserved_example =
    reserve_quota-Reserved memory memory-RedisLaws json "r1" 5 store "u" "a" "m" (pos 30) "r1"
      reserve-fine

-- A reservation beyond what is left is refused.
reserve-refused :
    (reserve_quota memory json "r1" 5 store "u" "a" "m" (pos 81)).1
    ≡ failed (redis "insufficient user quota")
unfolding reserve_quota reserve_script check_quota quotas_left left_to_reserve shortage increments
    ◌-ℤ◌ keys_of
reserve-refused = refl

deduct-fine : (deduct_quota memory store "u" "a" "m" (pos 80)).1 ≡ done tt
unfolding deduct_quota deduct_script check_quota quotas_left left_to_deduct shortage increments ◌-ℤ◌
    keys_of
deduct-fine = refl

deduct_quota-Deducted_example :
    Deducted memory store
      (deduct_quota memory store "u" "a" "m" (pos 80)).0
      (build_key quota_level_user "u")
      (pos 80)
    × Deducted memory store
        (deduct_quota memory store "u" "a" "m" (pos 80)).0
        (build_key quota_level_app "a")
        (pos 80)
    × Deducted memory store
        (deduct_quota memory store "u" "a" "m" (pos 80)).0
        (build_key quota_level_model "m")
        (pos 80)
deduct_quota-Deducted_example =
    deduct_quota-Deducted memory memory-RedisLaws store "u" "a" "m" (pos 80) deduct-fine

-- The reservation is stored, and its 30 tokens are reserved.
abbrev held : Store
held = (
  λ key field.
      if field == "total"
      then some (pos 100)
      else if field == "used"
      then some (pos 20)
      else some (pos 30),
  λ key. some "text",
)

settle-fine : (settle_quota memory json 9 held "r1" (pos 25)).1 ≡ done tt
unfolding settle_quota settle settle_script increments keys_of
settle-fine = refl

settle_quota-Balance_example :
    Balance memory
      (settle_quota memory json 9 held "r1" (pos 25)).0
      (build_key quota_level_app "a")
      (pos 100)
      (pos 20 +ℤ pos 25)
      (pos 30 -ℤ pos 30)
settle_quota-Balance_example =
    settle_quota-Balance memory memory-RedisLaws json 9 held "r1" "text" reservation (pos 25)
      (build_key quota_level_app "a") (pos 100) (pos 20) (pos 30) refl refl settle-fine
      (inr (inl refl)) (refl, refl, refl)

reserve_quota-refused_example :
    (e : String) × (reserve_quota memory json "r1" 5 held "u" "a" "m" (pos 51)
      ≡ (held, failed (redis e)))
unfolding keys_of build_key ◌-ℤ◌
reserve_quota-refused_example =
    reserve_quota-refused memory json "r1" 5 held "u" "a" "m" (build_key quota_level_model "m")
      (pos 51) (pos 100) (pos 20) (pos 30) (inr (inr refl)) (refl, refl, refl) refl
