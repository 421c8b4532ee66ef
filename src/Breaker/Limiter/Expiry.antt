-- ===== src/Breaker/Limiter/Expiry.antt =====
-- How long a bucket of internal/breaker/limiter.go lives: the script sets its expiry to an hour.
use llmapi_gate_way.Common.{
  ℕ, ◌+◌, ◌-◌, ◌≤◌, ◌<◌, String, ◌≡◌, refl, ◌∙◌, ◌⊎◌, inl, inr, none, some, arith, Bool-cases,
}
use llmapi_gate_way.Common.Float.{Float64}
use llmapi_gate_way.Common.Result.{Result-cases}
use llmapi_gate_way.Breaker.Limiter.{
  Hashes, HashLaws, Texts, number, bucket, consume, token_bucket_script,
}

module _ {S : Type 0} (redis : Hashes S) (key : String) where
  -- The key does not expire by second w, seen from second u.
  abbrev pub Lives : S → ℕ → ℕ → Type 0
  Lives s u w = (redis.ttl s key ≡ none) ⊎ ((n : ℕ) × (redis.ttl s key ≡ some n) × (w < u + n))

module _ (fl : Float64) (lua : Texts fl.F) {S : Type 0} (redis : Hashes S) (laws : HashLaws redis)
    (key : String) where
  pub wait-Lives :
      (s : S) (u v w : ℕ)
      → u ≤ v
      → v ≤ w
      → Lives redis key s u w
      → (redis.hmget (redis.wait (v - u) s) key "tokens" "last_update"
          ≡ redis.hmget s key "tokens" "last_update")
        × Lives redis key (redis.wait (v - u) s) v w
  wait-Lives s u v w h k (inl lasting) =
      let (same, still) = laws.wait-lasting s key "tokens" "last_update" (v - u) lasting in
      (same, inl still)
  wait-Lives s u v w h k (inr (n, left, far)) =
      let (same, still) =
        laws.wait-alive s key "tokens" "last_update" (v - u) n left (omega arith) in
      (same, inr (n - (v - u), still, omega arith))

  -- A call leaves the expiry of the key, or sets it to an hour.
  abbrev Renews : S → S → Type 0
  Renews s s' = (redis.ttl s' key ≡ redis.ttl s key) ⊎ (redis.ttl s' key ≡ some 3600)

  Renews-Lives :
      (s s' : S) (v w : ℕ)
      → w < v + 3600
      → Renews s s'
      → Lives redis key s v w
      → Lives redis key s' v w
  Renews-Lives s s' v w h (inl same) (inl lasting) = inl (same ∙ lasting)
  Renews-Lives s s' v w h (inl same) (inr (n, left, far)) = inr (n, same ∙ left, far)
  Renews-Lives s s' v w h (inr hour) lives = inr (3600, hour, h)

  consume-Renews :
      (s : S) (tokens requested now : fl.F)
      → Renews s (consume fl lua redis s key tokens requested now).0
  unfolding consume
  consume-Renews s tokens requested now = elim (Bool-cases (fl.le requested tokens)) [
    | inr short ↦ rw (short, consume) (inl refl)
    | inl enough ↦
        elim (Result-cases (
          redis.hmset s key ("tokens", lua.tostring (fl.sub tokens requested))
            ("last_update", lua.tostring now))) [
              | inr (e, he) ↦ rw (enough, consume, he) (inl refl)
              | inl (s', hs) ↦ elim (Result-cases (redis.expire s' key 3600)) [
                | inr (e, he) ↦ rw (enough, consume, hs, he) (inl (laws.ttl-hmset s s' key _ _ hs))
                | inl (s'', he) ↦
                    rw (enough, consume, hs, he)
                      (elim (laws.ttl-expire s' s'' key 3600 (omega arith) he) [
                        | inl hour ↦ inr hour
                        | inr same ↦ inl (same ∙ laws.ttl-hmset s s' key _ _ hs)
                      ])
              ]
            ]
  ]

  script-Renews :
      (s : S) (capacity rate requested now : fl.F)
      → Renews s (token_bucket_script fl lua redis s key capacity rate requested now).0
  unfolding token_bucket_script
  script-Renews s capacity rate requested now =
      elim (Result-cases (redis.hmget s key "tokens" "last_update")) [
        | inr (e, bad) ↦ rw (bad, token_bucket_script) (inl refl)
        | inl ((held, at_time), got) ↦
            elim (Result-cases (
              bucket fl lua redis capacity now (number fl lua redis held)
                (number fl lua redis at_time))) [
                  | inr (e, bad) ↦ rw (got, token_bucket_script, bad) (inl refl)
                  | inl ((tokens, last_update), read) ↦
                      rw (got, token_bucket_script, read) (consume-Renews s _ _ _)
                ]
      ]

  -- A call at second v after the last one at second u.
  pub call-Lives :
      (s : S) (capacity rate requested now : fl.F) (u v w : ℕ)
      → u ≤ v
      → v ≤ w
      → w < v + 3600
      → Lives redis key s u w
      → Lives redis key
          (token_bucket_script fl lua redis
            (redis.wait (v - u) s)
            key
            capacity
            rate
            requested
            now).0
          v
          w
  call-Lives s capacity rate requested now u v w h k near lives =
      Renews-Lives (redis.wait (v - u) s) _ v w near (script-Renews _ capacity rate requested now)
        (wait-Lives s u v w h k lives).1
