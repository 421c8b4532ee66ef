-- ===== src/Quota/Reserve.antt =====
-- A reservation of internal/quota/manager.go keeps to the budgets.
use llmapi_gate_way.Common.{ℕ, String, ◌≡◌, refl, ◌∙◌, inl, inr, none, [], Option-cases}
use llmapi_gate_way.Common.Int.{ℤ, pos, ◌+ℤ◌, ◌≤ℤ◌}
use llmapi_gate_way.Common.Result.{done}
use llmapi_gate_way.Adapter.Types.{Json}
use llmapi_gate_way.Quota.Types.{
  quota_level_user, quota_level_app, quota_level_model, QuotaReservation,
}
use llmapi_gate_way.Quota.Redis.{Redis, RedisLaws}
use llmapi_gate_way.Quota.Manager.{
  build_key, Keys, keys_of, on_each, left_to_reserve, increments, check_quota, reserve_script,
  save_reservation, reserve_quota,
}
use llmapi_gate_way.Quota.Increments.{delta, +ℤ_zero}
use llmapi_gate_way.Quota.Budget.{
  IsOne, delta-each, user-IsOne, app-IsOne, model-IsOne, within, check_quota-enough, moved,
  left-Balance, Balance, save_reservation-read,
}

module _ {S : Type 0} (r : Redis S) where
  -- A reservation of so many tokens took the key from one state of the store to another, within its
  -- total.
  abbrev pub Reserved : S → S → String → ℤ → Type 0
  Reserved s s' key n =
      (t : ℤ) × (u : ℤ) × (v : ℤ) × Balance r s key t u v
      × Balance r s' key t u (v +ℤ n)
      × (u +ℤ (v +ℤ n) ≤ℤ t)

module _ {S : Type 0} (r : Redis S) (laws : RedisLaws r) where
  -- The key's balance after an increment of each key's reserved tokens.
  reserved-Balance :
      (s : S) (keys : Keys) (n : ℤ) (key : String) (t u v : ℤ)
      → IsOne keys key
      → (increments r s (on_each keys "reserved" n [])).1 ≡ none
      → Balance r s key t u v
      → Balance r (increments r s (on_each keys "reserved" n [])).0 key t u (v +ℤ n)
  unfolding delta
  reserved-Balance s keys n key t u v one fine (et, eu, ev) =
      let ups = on_each keys "reserved" n [] in
      let d = λ (field : String). delta-each keys key "reserved" field n [] one in
      (
        moved r laws ups s key "total" t (pos 0) t fine (d "total") (+ℤ_zero t) et,
        moved r laws ups s key "used" u (pos 0) u fine (d "used") (+ℤ_zero u) eu,
        moved r laws ups s key "reserved" v (n +ℤ pos 0) (v +ℤ n) fine (d "reserved")
            (rw (+ℤ_zero n) refl) ev,
      )

  reserve_key :
      (s : S) (keys : Keys) (n : ℤ) (key : String) (l : ℤ)
      → IsOne keys key
      → (increments r s (on_each keys "reserved" n [])).1 ≡ none
      → left_to_reserve r s key ≡ done l
      → n ≤ℤ l
      → Reserved r s (increments r s (on_each keys "reserved" n [])).0 key n
  reserve_key s keys n key l one fine left enough =
      let (t, u, v, b, e) = left-Balance r s key l left in
      (t, u, v, b, reserved-Balance s keys n key t u v one fine b, within t u v n l e enough)

  reserve_script-Reserved :
      (s : S) (keys : Keys) (n : ℤ)
      → IsOne keys keys.user
      → IsOne keys keys.app
      → IsOne keys keys.model
      → (reserve_script r s keys n).1 ≡ none
      → Reserved r s (reserve_script r s keys n).0 keys.user n
        × Reserved r s (reserve_script r s keys n).0 keys.app n
        × Reserved r s (reserve_script r s keys n).0 keys.model n
  unfolding reserve_script
  reserve_script-Reserved s keys n one_u one_a one_m fine =
      elim (Option-cases (check_quota r (left_to_reserve r) s keys n)) [
        | inl passed ↦
            let (a, b, c, (la, lb, lc), (na, nb, nc)) =
              check_quota-enough r (left_to_reserve r) s keys n passed in
            let fine' : (increments r s (on_each keys "reserved" n [])).1 ≡ none =
              rw (passed, reserve_script) at fine in
            rw (passed, reserve_script)
              (
                reserve_key s keys n keys.user a one_u fine' la na,
                reserve_key s keys n keys.app b one_a fine' lb nb,
                reserve_key s keys n keys.model c one_m fine' lc nc,
              )
        | inr (e, stopped) ↦ cc (rw (stopped, reserve_script) at fine)
      ]

  save_reservation-Reserved :
      (json : Json QuotaReservation) (s s' : S) (id : String) (res : QuotaReservation)
      (level name : String) (n : ℤ)
      → Reserved r s s' (build_key level name) n
      → Reserved r s (save_reservation r json s' id res) (build_key level name) n
  save_reservation-Reserved json s s' id res level name n (t, u, v, before, (et, eu, ev), fits) =
      let same = save_reservation-read r laws json s' id res level name in
      (t, u, v, before, (same "total" ∙ et, same "used" ∙ eu, same "reserved" ∙ ev), fits)

  -- A reservation that succeeds adds the tokens to the reserved ones of the user, the app and the
  -- model, all three, and of each leaves the total and the used tokens as they were; and the used and
  -- reserved tokens of each together stay within its total.
  pub reserve_quota-Reserved :
      (json : Json QuotaReservation) (id : String) (now : ℕ) (s : S)
      (user_id app_id model_id : String) (n : ℤ) (id' : String)
      → (reserve_quota r json id now s user_id app_id model_id n).1 ≡ done id'
      → Reserved r s
          (reserve_quota r json id now s user_id app_id model_id n).0
          (build_key quota_level_user user_id)
          n
        × Reserved r s
            (reserve_quota r json id now s user_id app_id model_id n).0
            (build_key quota_level_app app_id)
            n
        × Reserved r s
            (reserve_quota r json id now s user_id app_id model_id n).0
            (build_key quota_level_model model_id)
            n
  unfolding reserve_quota keys_of
  reserve_quota-Reserved json id now s user_id app_id model_id n id' ok =
      let keys = keys_of user_id app_id model_id in
      elim (Option-cases (reserve_script r s keys n).1) [
        | inl fine ↦
            let (u, a, m) =
              reserve_script-Reserved s keys n (user-IsOne user_id app_id model_id)
                (app-IsOne user_id app_id model_id) (model-IsOne user_id app_id model_id) fine in
            rw (fine, reserve_quota)
              (
                save_reservation-Reserved json s _ id _ quota_level_user user_id n u,
                save_reservation-Reserved json s _ id _ quota_level_app app_id n a,
                save_reservation-Reserved json s _ id _ quota_level_model model_id n m,
              )
        | inr (e, stopped) ↦ cc (rw (stopped, reserve_quota) at ok)
      ]
