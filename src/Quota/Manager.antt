-- ===== src/Quota/Manager.antt =====
-- internal/quota/manager.go: the Lua scripts and the operations that run them. A script runs
-- atomically; a command that fails ends it, and what it wrote before stays. Lua's numbers are exact
-- integers here, as they are below 2^53. The type switch on the script's result never finds an `err`,
-- since go-redis returns an error reply as the call's error. The expiry of a reservation is a change
-- of the store between calls.
use Prim.Native.String.{◌++◌ as concat}
use llmapi_gate_way.Common.{ℕ, String, Option, none, some, List, [], ◌∷◌, if◌then◌else◌}
use llmapi_gate_way.Common.Int.{ℤ, pos, ◌-ℤ◌, ltb_ℤ}
use llmapi_gate_way.Common.Time.{at}
use llmapi_gate_way.Common.Result.{Result, done, failed, ◌>>=◌}
use llmapi_gate_way.Adapter.Types.{Json}
use llmapi_gate_way.Quota.Types.{
  quota_level_user, quota_level_app, quota_level_model, reservation_status_pending,
  reservation_status_settled, QuotaNode, QuotaReservation, QuotaError, redis, quota_not_found,
  reservation_not_found,
}
use llmapi_gate_way.Quota.Redis.{Redis, number}

-- `buildKey`
unfoldable pub build_key : String → String → String
build_key level identifier = concat "quota:" (concat level (concat ":" identifier))

abbrev pub reservation_key : String → String
reservation_key id = concat "reservation:" id

-- The three keys that a script gets.
pub record Keys : Type 0 where
  pub user : String
  pub app : String
  pub model : String

unfoldable pub keys_of : String → String → String → Keys
keys_of user_id app_id model_id = record {
  user = build_key quota_level_user user_id;
  app = build_key quota_level_app app_id;
  model = build_key quota_level_model model_id;
}

-- HINCRBY of a field, `(key, field, increment)`.
abbrev pub Increment : Type 0
Increment = String × (String × ℤ)

abbrev pub on_each : Keys → String → ℤ → List Increment → List Increment
on_each keys field n rest =
    (keys.user, (field, n)) ∷ (keys.app, (field, n)) ∷ (keys.model, (field, n)) ∷ rest

unfoldable pub shortage : ℤ → ℤ → ℤ → ℤ → Option String
shortage user app model tokens =
    if ltb_ℤ user tokens
    then some "insufficient user quota"
    else if ltb_ℤ app tokens
    then some "insufficient app quota"
    else if ltb_ℤ model tokens
    then some "insufficient model quota"
    else none

-- The reservation as it is written back.
abbrev pub settled : ℕ → ℤ → QuotaReservation → QuotaReservation
settled now actual_tokens reservation = record reservation {
  status = reservation_status_settled;
  actual_tokens = actual_tokens;
  settled_at = some (at now);
}

-- The bytes of `data, _ := json.Marshal(x)`.
abbrev pub bytes : Result String String → String
bytes (done text) = text
bytes (failed e) = ""

-- The state after a command whose error is dropped.
abbrev pub ignoring {ℓ} : {S : Type ℓ} → S → Result String S → S
ignoring s (done s') = s'
ignoring s (failed e) = s

module _ {S : Type 0} (r : Redis S) where
  abbrev pub read : S → String → String → Result String ℤ
  read s key field = r.hget s key field >>= λ v. done (number v)

  -- `total - used - reserved` of a key.
  unfoldable pub left_to_reserve : S → String → Result String ℤ
  left_to_reserve s key = do
    total ← read s key "total"
    used ← read s key "used"
    reserved ← read s key "reserved"
    done (total -ℤ used -ℤ reserved)

  -- `total - used` of a key.
  unfoldable pub left_to_deduct : S → String → Result String ℤ
  left_to_deduct s key = do
    total ← read s key "total"
    used ← read s key "used"
    done (total -ℤ used)

  unfoldable pub increments : S → List Increment → S × Option String
  increments s [] = (s, none)
  increments s ((key, (field, n)) ∷ rest) = elim (r.hincrby s key field n) [
    | failed e ↦ (s, some e)
    | done s' ↦ increments s' rest
  ]

  -- What is left of the three quotas, all read before the first test.
  unfoldable pub quotas_left :
      (S → String → Result String ℤ) → S → Keys → Result String (ℤ × (ℤ × ℤ))
  quotas_left left s keys = do
    user ← left s keys.user
    app ← left s keys.app
    model ← left s keys.model
    done (user, (app, model))

  -- The tests that the deduction and the reservation share, with what is left of a key.
  unfoldable pub check_quota : (S → String → Result String ℤ) → S → Keys → ℤ → Option String
  check_quota left s keys tokens = elim (quotas_left left s keys) [
    | failed e ↦ some e
    | done (user, (app, model)) ↦ shortage user app model tokens
  ]

  unfoldable pub deduct_script : S → Keys → ℤ → S × Option String
  deduct_script s keys tokens = elim (check_quota left_to_deduct s keys tokens) [
    | some e ↦ (s, some e)
    | none ↦ increments s (on_each keys "used" tokens [])
  ]

  unfoldable pub reserve_script : S → Keys → ℤ → S × Option String
  reserve_script s keys tokens = elim (check_quota left_to_reserve s keys tokens) [
    | some e ↦ (s, some e)
    | none ↦ increments s (on_each keys "reserved" tokens [])
  ]

  unfoldable pub settle_script : S → Keys → ℤ → ℤ → S × Option String
  settle_script s keys reserved_tokens actual_tokens =
      increments s
        (on_each keys "reserved" (pos 0 -ℤ reserved_tokens) (on_each keys "used" actual_tokens []))

  -- `redis.Set` of a reservation; both errors are dropped.
  unfoldable pub save_reservation : Json QuotaReservation → S → String → QuotaReservation → S
  save_reservation json s reservation_id reservation =
      ignoring s (r.set s (reservation_key reservation_id) (bytes (json.marshal reservation)))

  unfoldable pub get_quota : Json QuotaNode → S → String → String → Result QuotaError QuotaNode
  get_quota json s level identifier = elim (r.get s (build_key level identifier)) [
    | failed e ↦ failed (redis e)
    | done none ↦ failed (quota_not_found identifier)
    | done (some stored) ↦ elim (json.unmarshal stored) [
      | failed e ↦ failed (QuotaError.json e)
      | done node ↦ done node
    ]
  ]

  unfoldable pub set_quota : Json QuotaNode → ℕ → S → QuotaNode → S × Result QuotaError (Unit {0})
  set_quota json now s node = elim (json.marshal (record node { updated_at = at now })) [
    | failed e ↦ (s, failed (QuotaError.json e))
    | done text ↦ elim (r.set s (build_key node.level node.identifier) text) [
      | failed e ↦ (s, failed (redis e))
      | done s' ↦ (s', done tt)
    ]
  ]

  -- The new id and the time are arguments.
  unfoldable pub reserve_quota :
      Json QuotaReservation
      → String
      → ℕ
      → S
      → String
      → String
      → String
      → ℤ
      → S × Result QuotaError String
  reserve_quota json reservation_id now s user_id app_id model_id estimated_tokens =
      let (s', refused) = reserve_script s (keys_of user_id app_id model_id) estimated_tokens in
      elim refused [
        | some e ↦ (s', failed (redis e))
        | none ↦ (
          save_reservation json s' reservation_id (record {
            id = reservation_id;
            user_id = user_id;
            app_id = app_id;
            model_id = model_id;
            reserved_tokens = estimated_tokens;
            actual_tokens = pos 0;
            status = reservation_status_pending;
            created_at = at now;
            settled_at = none;
          }),
          done reservation_id,
        )
      ]

  -- `SettleQuota` once the reservation is decoded. It is written back under the id of the call.
  unfoldable pub settle :
      Json QuotaReservation
      → ℕ
      → S
      → String
      → QuotaReservation
      → ℤ
      → S × Result QuotaError (Unit {0})
  settle json now s reservation_id reservation actual_tokens =
      let (s', refused) =
        settle_script s (keys_of reservation.user_id reservation.app_id reservation.model_id)
          reservation.reserved_tokens actual_tokens in
      elim refused [
        | some e ↦ (s', failed (redis e))
        | none ↦ (
          save_reservation json s' reservation_id (settled now actual_tokens reservation),
          done tt,
        )
      ]

  unfoldable pub settle_quota :
      Json QuotaReservation → ℕ → S → String → ℤ → S × Result QuotaError (Unit {0})
  settle_quota json now s reservation_id actual_tokens =
      elim (r.get s (reservation_key reservation_id)) [
        | failed e ↦ (s, failed (reservation_not_found reservation_id))
        | done none ↦ (s, failed (reservation_not_found reservation_id))
        | done (some stored) ↦ elim (json.unmarshal stored) [
          | failed e ↦ (s, failed (QuotaError.json e))
          | done reservation ↦ settle json now s reservation_id reservation actual_tokens
        ]
      ]

  unfoldable pub deduct_quota : S → String → String → String → ℤ → S × Result QuotaError (Unit {0})
  deduct_quota s user_id app_id model_id tokens =
      let (s', refused) = deduct_script s (keys_of user_id app_id model_id) tokens in
      elim refused [ some e ↦ (s', failed (redis e)) | none ↦ (s', done tt) ]
