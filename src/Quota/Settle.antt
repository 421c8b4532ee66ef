-- ===== src/Quota/Settle.antt =====
-- Settlement and deduction of internal/quota/manager.go.
use llmapi_gate_way.Common.{
  ℕ, String, ◌≡◌, refl, ap, ◌∙◌, ◌⊎◌, inl, inr, none, some, [], Option-cases,
}
use llmapi_gate_way.Common.Int.{ℤ, pos, ◌+ℤ◌, ◌-ℤ◌, ◌≤ℤ◌, int_laws}
use llmapi_gate_way.Common.Result.{done, bind-done, done_inj}
use llmapi_gate_way.Adapter.Types.{Json}
use llmapi_gate_way.Quota.Types.{
  quota_level_user, quota_level_app, quota_level_model, QuotaReservation,
}
use llmapi_gate_way.Quota.Redis.{Redis, RedisLaws}
use llmapi_gate_way.Quota.Manager.{
  settled, build_key, reservation_key, Keys, keys_of, on_each, read, left_to_deduct, increments,
  check_quota, deduct_script, settle_script, save_reservation, settle, settle_quota, deduct_quota,
}
use llmapi_gate_way.Quota.Increments.{delta, +ℤ_zero}
use llmapi_gate_way.Quota.Budget.{
  IsOne, delta-each, user-IsOne, app-IsOne, model-IsOne, check_quota-enough, moved, Balance,
  save_reservation-read,
}

module _ {S : Type 0} (r : Redis S) where
  -- A deduction of so many tokens took the key from one state of the store to another, within its
  -- total.
  abbrev pub Deducted : S → S → String → ℤ → Type 0
  Deducted s s' key n =
      (t : ℤ) × (u : ℤ) × ((read r s key "total" ≡ done t) × (read r s key "used" ≡ done u))
      × ((read r s' key "total" ≡ done t) × (read r s' key "used" ≡ done (u +ℤ n)))
      × (u +ℤ n ≤ℤ t)

  left-used :
      (s : S) (key : String) (l : ℤ)
      → left_to_deduct r s key ≡ done l
      → (t : ℤ) × (u : ℤ) × ((read r s key "total" ≡ done t) × (read r s key "used" ≡ done u))
        × (t -ℤ u ≡ l)
  unfolding left_to_deduct
  left-used s key l h =
      let (t, et, h1) = bind-done (read r s key "total") _ h in
      let (u, eu, h2) = bind-done (read r s key "used") _ h1 in (t, u, (et, eu), done_inj h2)

within_total : (t u n l : ℤ) → t -ℤ u ≡ l → n ≤ℤ l → u +ℤ n ≤ℤ t
within_total t u n l e h = grind (int_laws, e, h)

minus : (v n : ℤ) → v +ℤ (pos 0 -ℤ n) ≡ v -ℤ n
minus v n = grind int_laws

-- The key of the reservation's user, app or model.
abbrev pub IsKeyOf : QuotaReservation → String → Type 0
IsKeyOf res key =
    (key ≡ build_key quota_level_user res.user_id)
    ⊎ ((key ≡ build_key quota_level_app res.app_id)
        ⊎ (key ≡ build_key quota_level_model res.model_id))

IsKeyOf-IsOne :
    (res : QuotaReservation) (key : String)
    → IsKeyOf res key
    → IsOne (keys_of res.user_id res.app_id res.model_id) key
IsKeyOf-IsOne res key is = elim is [
  | inl e ↦ rw e (user-IsOne res.user_id res.app_id res.model_id)
  | inr (inl e) ↦ rw e (app-IsOne res.user_id res.app_id res.model_id)
  | inr (inr e) ↦ rw e (model-IsOne res.user_id res.app_id res.model_id)
]

module _ {S : Type 0} (r : Redis S) (laws : RedisLaws r) where
  deduct_key :
      (s : S) (keys : Keys) (n : ℤ) (key : String) (l : ℤ)
      → IsOne keys key
      → (increments r s (on_each keys "used" n [])).1 ≡ none
      → left_to_deduct r s key ≡ done l
      → n ≤ℤ l
      → Deducted r s (increments r s (on_each keys "used" n [])).0 key n
  unfolding delta
  deduct_key s keys n key l one fine left enough =
      let (t, u, (et, eu), e) = left-used r s key l left in
      let ups = on_each keys "used" n [] in
      let d = λ (field : String). delta-each keys key "used" field n [] one in
      (
        t,
        u,
        (et, eu),
        (
          moved r laws ups s key "total" t (pos 0) t fine (d "total") (+ℤ_zero t) et,
          moved r laws ups s key "used" u (n +ℤ pos 0) (u +ℤ n) fine (d "used")
              (rw (+ℤ_zero n) refl) eu,
        ),
        within_total t u n l e enough,
      )

  settle_script-Balance :
      (s : S) (keys : Keys) (n actual : ℤ) (key : String) (t u v : ℤ)
      → (settle_script r s keys n actual).1 ≡ none
      → IsOne keys key
      → Balance r s key t u v
      → Balance r (settle_script r s keys n actual).0 key t (u +ℤ actual) (v -ℤ n)
  unfolding settle_script delta
  settle_script-Balance s keys n actual key t u v fine one (et, eu, ev) =
      let rest = on_each keys "used" actual [] in
      let ups = on_each keys "reserved" (pos 0 -ℤ n) rest in
      let d = λ (field : String). delta-each keys key "reserved" field (pos 0 -ℤ n) rest one in
      let e = λ (field : String). delta-each keys key "used" field actual [] one in
      (
        moved r laws ups s key "total" t (pos 0) t fine (d "total" ∙ e "total") (+ℤ_zero t) et,
        moved r laws ups s key "used" u (actual +ℤ pos 0) (u +ℤ actual) fine (d "used" ∙ e "used")
            (rw (+ℤ_zero actual) refl) eu,
        moved r laws ups s key "reserved" v (pos 0 -ℤ n +ℤ pos 0) (v -ℤ n) fine
            (d "reserved" ∙ ap (λ x. pos 0 -ℤ n +ℤ x) (e "reserved"))
            (rw (+ℤ_zero (pos 0 -ℤ n)) (minus v n)) ev,
      )

  key-saved :
      (json : Json QuotaReservation) (s : S) (id : String) (to : QuotaReservation)
      (res : QuotaReservation) (key field : String)
      → IsKeyOf res key
      → read r (save_reservation r json s id to) key field ≡ read r s key field
  key-saved json s id to res key field is = elim is [
    | inl e ↦ rw e (save_reservation-read r laws json s id to quota_level_user res.user_id field)
    | inr (inl e) ↦
        rw e (save_reservation-read r laws json s id to quota_level_app res.app_id field)
    | inr (inr e) ↦
        rw e (save_reservation-read r laws json s id to quota_level_model res.model_id field)
  ]

  settle-Balance :
      (json : Json QuotaReservation) (now : ℕ) (s : S) (id : String) (res : QuotaReservation)
      (actual : ℤ) (key : String) (t u v : ℤ)
      → (settle r json now s id res actual).1 ≡ done tt
      → IsKeyOf res key
      → Balance r s key t u v
      → Balance r
          (settle r json now s id res actual).0
          key
          t
          (u +ℤ actual)
          (v -ℤ res.reserved_tokens)
  unfolding settle
  settle-Balance json now s id res actual key t u v ok is b =
      let keys = keys_of res.user_id res.app_id res.model_id in
      elim (Option-cases (settle_script r s keys res.reserved_tokens actual).1) [
        | inl fine ↦
            let (et, eu, ev) =
              settle_script-Balance s keys res.reserved_tokens actual key t u v fine
                (IsKeyOf-IsOne res key is) b in
            let same = λ (field : String).
              key-saved json (settle_script r s keys res.reserved_tokens actual).0 id
                (settled now actual res) res key field is in
            rw (fine, settle) (same "total" ∙ et, same "used" ∙ eu, same "reserved" ∙ ev)
        | inr (e, stopped) ↦ cc (rw (stopped, settle) at ok)
      ]

  deduct_script-Deducted :
      (s : S) (keys : Keys) (n : ℤ)
      → IsOne keys keys.user
      → IsOne keys keys.app
      → IsOne keys keys.model
      → (deduct_script r s keys n).1 ≡ none
      → Deducted r s (deduct_script r s keys n).0 keys.user n
        × Deducted r s (deduct_script r s keys n).0 keys.app n
        × Deducted r s (deduct_script r s keys n).0 keys.model n
  unfolding deduct_script
  deduct_script-Deducted s keys n one_u one_a one_m fine =
      elim (Option-cases (check_quota r (left_to_deduct r) s keys n)) [
        | inl passed ↦
            let (a, b, c, (la, lb, lc), (na, nb, nc)) =
              check_quota-enough r (left_to_deduct r) s keys n passed in
            let fine' : (increments r s (on_each keys "used" n [])).1 ≡ none =
              rw (passed, deduct_script) at fine in
            rw (passed, deduct_script)
              (
                deduct_key s keys n keys.user a one_u fine' la na,
                deduct_key s keys n keys.app b one_a fine' lb nb,
                deduct_key s keys n keys.model c one_m fine' lc nc,
              )
        | inr (e, stopped) ↦ cc (rw (stopped, deduct_script) at fine)
      ]

  -- A deduction that succeeds adds the tokens to the used ones of the user, the app and the model, all
  -- three, and the used tokens of each stay within its total.
  pub deduct_quota-Deducted :
      (s : S) (user_id app_id model_id : String) (n : ℤ)
      → (deduct_quota r s user_id app_id model_id n).1 ≡ done tt
      → Deducted r s
          (deduct_quota r s user_id app_id model_id n).0
          (build_key quota_level_user user_id)
          n
        × Deducted r s
            (deduct_quota r s user_id app_id model_id n).0
            (build_key quota_level_app app_id)
            n
        × Deducted r s
            (deduct_quota r s user_id app_id model_id n).0
            (build_key quota_level_model model_id)
            n
  unfolding deduct_quota keys_of
  deduct_quota-Deducted s user_id app_id model_id n ok =
      let keys = keys_of user_id app_id model_id in
      elim (Option-cases (deduct_script r s keys n).1) [
        | inl fine ↦
            rw (fine, deduct_quota)
              (deduct_script-Deducted s keys n (user-IsOne user_id app_id model_id)
                (app-IsOne user_id app_id model_id) (model-IsOne user_id app_id model_id) fine)
        | inr (e, stopped) ↦ cc (rw (stopped, deduct_quota) at ok)
      ]

  -- A settlement that succeeds takes the reserved tokens of the stored reservation off the reserved
  -- ones of its user, its app and its model, and adds the actual tokens to their used ones; the totals
  -- stay. Nothing bounds the used tokens by the total here.
  pub settle_quota-Balance :
      (json : Json QuotaReservation) (now : ℕ) (s : S) (id text : String) (res : QuotaReservation)
      (actual : ℤ) (key : String) (t u v : ℤ)
      → r.get s (reservation_key id) ≡ done (some text)
      → json.unmarshal text ≡ done res
      → (settle_quota r json now s id actual).1 ≡ done tt
      → IsKeyOf res key
      → Balance r s key t u v
      → Balance r
          (settle_quota r json now s id actual).0
          key
          t
          (u +ℤ actual)
          (v -ℤ res.reserved_tokens)
  unfolding settle_quota
  settle_quota-Balance json now s id text res actual key t u v stored decoded ok is b =
      rw (stored, settle_quota, decoded)
        (settle-Balance json now s id res actual key t u v
          (rw (stored, settle_quota, decoded) at ok) is b)
