-- ===== src/Quota/Refuse.antt =====
-- A reservation of internal/quota/manager.go that exceeds a budget is refused.
use llmapi_gate_way.Common.{
  ℕ, String, ◌≡◌, refl, sym, ap, ◌∙◌, ◌⊎◌, inl, inr, true, none, some, arith, Option-cases,
}
use llmapi_gate_way.Common.Int.{ℤ, ◌-ℤ◌, ◌≤ℤ◌, ltb_ℤ}
use llmapi_gate_way.Common.Result.{Result, done, failed, done_inj}
use llmapi_gate_way.Adapter.Types.{Json}
use llmapi_gate_way.Quota.Types.{QuotaReservation, redis}
use llmapi_gate_way.Quota.Redis.{Redis}
use llmapi_gate_way.Quota.Manager.{
  Keys, keys_of, left_to_reserve, check_quota, reserve_script, reserve_quota,
}
use llmapi_gate_way.Quota.Budget.{Balance, check_quota-enough}

-- It is one of the keys.
abbrev pub IsAmong : Keys → String → Type 0
IsAmong keys key = (key ≡ keys.user) ⊎ ((key ≡ keys.app) ⊎ (key ≡ keys.model))

not-short : (l n : ℤ) → ltb_ℤ l n ≡ true → n ≤ℤ l → ⊥
not-short l n h le = ground (arith, h)

module _ {S : Type 0} (r : Redis S) where
  Balance-left :
      (s : S) (key : String) (t u v : ℤ)
      → Balance r s key t u v
      → left_to_reserve r s key ≡ done (t -ℤ u -ℤ v)
  unfolding left_to_reserve
  Balance-left s key t u v (et, eu, ev) = rw (left_to_reserve, et, eu, ev) refl

  enough_for :
      (left : S → String → Result String ℤ) (s : S) (keys : Keys) (n l : ℤ) (key : String)
      → IsAmong keys key
      → check_quota r left s keys n ≡ none
      → left s key ≡ done l
      → n ≤ℤ l
  enough_for left s keys n l key among passed has =
      let (a, b, c, (la, lb, lc), (na, nb, nc)) = check_quota-enough r left s keys n passed in
      elim among [
        | inl e ↦ rw (done_inj (sym la ∙ (rw e at has))) at na
        | inr (inl e) ↦ rw (done_inj (sym lb ∙ (rw e at has))) at nb
        | inr (inr e) ↦ rw (done_inj (sym lc ∙ (rw e at has))) at nc
      ]

  script_refused :
      (s : S) (keys : Keys) (n : ℤ) (e : String)
      → check_quota r (left_to_reserve r) s keys n ≡ some e
      → reserve_script r s keys n ≡ (s, some e)
  unfolding reserve_script
  script_refused s keys n e stopped = rw (reserve_script, stopped) refl

  -- A reservation of more tokens than the user, the app or the model has left, that is, beyond its
  -- total less the used and the reserved tokens, fails and leaves the store as it was.
  pub reserve_quota-refused :
      (json : Json QuotaReservation) (id : String) (now : ℕ) (s : S)
      (user_id app_id model_id key : String) (n t u v : ℤ)
      → IsAmong (keys_of user_id app_id model_id) key
      → Balance r s key t u v
      → ltb_ℤ (t -ℤ u -ℤ v) n ≡ true
      → (e : String) × (reserve_quota r json id now s user_id app_id model_id n
          ≡ (s, failed (redis e)))
  unfolding reserve_quota
  reserve_quota-refused json id now s user_id app_id model_id key n t u v among b short =
      let keys = keys_of user_id app_id model_id in
      elim (Option-cases (check_quota r (left_to_reserve r) s keys n)) [
        | inl passed ↦
            let enough : n ≤ℤ t -ℤ u -ℤ v =
              enough_for (left_to_reserve r) s keys n (t -ℤ u -ℤ v) key among passed
                (Balance-left s key t u v b) in
            absurd (not-short (t -ℤ u -ℤ v) n short enough)
        | inr (e, stopped) ↦ (
          e,
          rw
              (
                reserve_quota,
                ap (λ p. p.1) (script_refused s keys n e stopped),
                script_refused s keys n e stopped,
              )
              refl,
        )
      ]
