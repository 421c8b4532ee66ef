-- ===== src/Breaker/Limiter/Budget.antt =====
-- What a token bucket of internal/breaker/limiter.go grants over time, where its numbers are exact.
use llmapi_gate_way.Common.{
  ℕ, ◌+◌, ◌-◌, ◌*◌, ◌≤◌, ◌<◌, ◌≢◌, ne_of_eq_false, min, String, ◌≡◌, refl, sym, ap, ◌∙◌, ◌⊎◌, inl,
  inr, Bool, true, false, Option, none, some, List, [], ◌∷◌, arith, ltb, leb, Bool-cases,
}
use llmapi_gate_way.Common.Int.{pos}
use llmapi_gate_way.Common.Time.{unix}
use llmapi_gate_way.Common.Float.{Float64}
use native.Mathlib.Nat.{add-mul, sub_self, zero-mul, min-le_left, min-le_right}
use llmapi_gate_way.Common.Result.{Result, done, failed, Result-cases}
use llmapi_gate_way.Breaker.Limiter.Expiry.{Lives, wait-Lives, call-Lives}
use llmapi_gate_way.Breaker.Limiter.{
  RateLimitDimension, Hashes, HashLaws, Texts, exact_limit, Exact, build_key, whole, math_min,
  refill, number, bucket, consume, token_bucket_script, allow_request,
}

-- Calls with the tokens each asks for and the clock reading.
abbrev pub Calls : Type 0
Calls = List (ℕ × ℕ)

-- The calls come in this order from second u to second w, and none asks for more than a double holds.
abbrev pub Within : ℕ → ℕ → Calls → Type 0
Within u w [] = u ≤ w
Within u w ((n, now) ∷ rest) = (u ≤ unix now) × (n ≤ exact_limit) × Within (unix now) w rest

abbrev pub granted_by : ℕ → Result String Bool → ℕ
granted_by n (failed e) = 0
granted_by n (done true) = n
granted_by n (done false) = 0

Within-le : (u w : ℕ) (calls : Calls) → Within u w calls → u ≤ w
Within-le u w [] h = h
Within-le u w ((n, now) ∷ rest) (h, m, hs) =
    let later : unix now ≤ w = Within-le (unix now) w rest hs in omega arith

Within-earlier : (t u w : ℕ) (calls : Calls) → t ≤ u → Within u w calls → Within t w calls
Within-earlier t u w [] h k = omega arith
Within-earlier t u w ((n, now) ∷ rest) h (k, m, ks) = (omega arith, m, ks)

min-whole :
    (fl : Float64) (lua : Texts fl.F)
    → Exact fl lua
    → (a b : ℕ) → a ≤ exact_limit
    → b ≤ exact_limit
    → math_min fl (whole fl a) (whole fl b) ≡ whole fl (min a b)
min-whole fl lua exact a b ha hb =
    let order : fl.lt (whole fl b) (whole fl a) ≡ ltb b a = exact.lt_exact b a hb ha in
    elim (Bool-cases (ltb b a)) [
      | inl less ↦ let small : min a b ≡ b = ground arith in rw (order, less, small) refl
      | inr not_less ↦ let small : min a b ≡ a = ground arith in rw (order, not_less, small) refl
    ]

mul_elapsed : (u v w r : ℕ) → u ≤ v → v ≤ w → (v - u) * r + (w - v) * r ≡ (w - u) * r
mul_elapsed u v w r h k = sym (add-mul (v - u) (w - v) r) ∙ ap (λ x. x * r) (omega arith)

no_time : (u r t : ℕ) → 0 + t ≤ t + (u - u) * r
no_time u r t = rw (sub_self u, zero-mul r) (omega arith)

fields_differ : ◌≢◌ {A = String} "tokens" "last_update"
fields_differ = ne_of_eq_false "tokens" "last_update" refl

module _ (fl : Float64) (kind identifier : String) (capacity rate : ℕ) where
  abbrev limited : RateLimitDimension fl.F
  limited = record {
    kind = kind;
    identifier = identifier;
    capacity = pos capacity;
    rate = whole fl rate;
  }

module _ (fl : Float64) (lua : Texts fl.F) {S : Type 0} (redis : Hashes S)
    (kind identifier : String) (capacity rate : ℕ) where
  -- The tokens that a sequence of calls is granted, from a second on; before each call the time
  -- passes in Redis too.
  unfoldable pub granted : S → ℕ → Calls → ℕ
  granted s u [] = 0
  granted s u ((n, now) ∷ rest) =
      let (s', answer) =
        allow_request fl lua redis (redis.wait (unix now - u) s)
          (limited fl kind identifier capacity rate) (pos n) now in
      granted_by n answer + granted s' (unix now) rest

module _ (fl : Float64) (lua : Texts fl.F) (exact : Exact fl lua) {S : Type 0} (redis : Hashes S)
    (laws : HashLaws redis) (kind identifier : String) (capacity rate : ℕ) where
  abbrev key : String
  key = build_key kind identifier

  abbrev dimension : RateLimitDimension fl.F
  dimension = limited fl kind identifier capacity rate

  abbrev total : S → ℕ → Calls → ℕ
  total = granted fl lua redis kind identifier capacity rate

  -- The bucket is kept with so many tokens and a second.
  abbrev Kept : S → ℕ → ℕ → Type 0
  Kept s t u =
      (a : String) × (b : String) × (redis.hmget s key "tokens" "last_update"
        ≡ done (some a, some b))
      × (lua.tonumber a ≡ some (whole fl t))
      × (lua.tonumber b ≡ some (whole fl u))

  -- The script that may consume of m tokens keeps what it leaves, or changes nothing.
  consume-Kept :
      (s : S) (m n v : ℕ)
      → m ≤ exact_limit
      → n ≤ exact_limit
      → v ≤ exact_limit
      → let r = consume fl lua redis s key (whole fl m) (whole fl n) (whole fl v) in
        ((r.0 ≡ s) × (granted_by n r.1 ≡ 0)) ⊎ ((t : ℕ) × Kept r.0 t v × (granted_by n r.1 + t ≤ m))
  unfolding consume
  consume-Kept s m n v hm hn hv =
      let cmp : fl.le (whole fl n) (whole fl m) ≡ leb n m = exact.le_exact n m hn hm in
      elim (Bool-cases (leb n m)) [
        | inr short ↦ rw (cmp, short, consume) (inl (refl, refl))
        | inl enough ↦
            let fits : n ≤ m = ground arith in
            let left : fl.sub (whole fl m) (whole fl n) ≡ whole fl (m - n) =
              exact.sub_exact m n fits hm in
            elim (Result-cases (
              redis.hmset s key ("tokens", lua.tostring (whole fl (m - n)))
                ("last_update", lua.tostring (whole fl v)))) [
                  | inr (e, he) ↦ rw (cmp, enough, consume, left, he) (inl (refl, refl))
                  | inl (s', hs) ↦
                      let there : (k : S)
                          → redis.hmget k key "tokens" "last_update"
                            ≡ redis.hmget s' key "tokens" "last_update"
                          → Kept k (m - n) v =
                        λ k same. (
                          lua.tostring (whole fl (m - n)),
                          lua.tostring (whole fl v),
                          same
                              ∙ laws.hmget-hmset s s' key "tokens" "last_update" _ _ fields_differ
                                  hs,
                          exact.read-written (m - n) (omega arith),
                          exact.read-written v hv,
                        ) in
                      elim (Result-cases (redis.expire s' key 3600)) [
                        | inr (e, he) ↦
                            rw (cmp, enough, consume, left, hs, he)
                              (inr (m - n, there s' refl, omega arith))
                        | inl (s'', he) ↦
                            rw (cmp, enough, consume, left, hs, he)
                              (inr (
                                m - n,
                                there s'' (
                                    laws.hmget-expire s' s'' key key "tokens" "last_update" 3600
                                      (omega arith) he),
                                omega arith,
                              ))
                      ]
                ]
      ]

  abbrev script : S → ℕ → ℕ → S × Result String Bool
  script s n v =
      token_bucket_script fl lua redis s key (whole fl capacity) (whole fl rate) (whole fl n)
        (whole fl v)

  abbrev refilled : ℕ → ℕ → ℕ → ℕ
  refilled t u v = min capacity (t + (v - u) * rate)

  refill-whole :
      (t u v : ℕ)
      → u ≤ v
      → v ≤ exact_limit
      → capacity ≤ exact_limit
      → t + (v - u) * rate ≤ exact_limit
      → refill fl (whole fl capacity) (whole fl rate) (whole fl t) (whole fl u) (whole fl v)
        ≡ whole fl (refilled t u v)
  unfolding refill
  refill-whole t u v h hv hc ht =
      rw
        (
          exact.sub_exact v u h hv,
          exact.mul_exact (v - u) rate (omega arith),
          exact.add_exact t ((v - u) * rate) ht,
        )
        (min-whole fl lua exact capacity (t + (v - u) * rate) hc ht)

  -- A script that reads a bucket of t tokens and the second u.
  script-consume :
      (s : S) (held at_time : Option String) (t u n v : ℕ)
      → redis.hmget s key "tokens" "last_update" ≡ done (held, at_time)
      → bucket fl lua redis
          (whole fl capacity)
          (whole fl v)
          (number fl lua redis held)
          (number fl lua redis at_time)
        ≡ done (whole fl t, whole fl u)
      → u ≤ v
      → v ≤ exact_limit
      → capacity ≤ exact_limit
      → t + (v - u) * rate ≤ exact_limit
      → script s n v
        ≡ consume fl lua redis s key (whole fl (refilled t u v)) (whole fl n) (whole fl v)
  unfolding token_bucket_script
  script-consume s held at_time t u n v got read h hv hc ht =
      rw (got, token_bucket_script, read, refill-whole t u v h hv hc ht) refl

  -- What a call leaves of a kept bucket, and what it is granted.
  abbrev Spent : ℕ → ℕ → ℕ → ℕ → S × Result String Bool → Type 0
  Spent t u n v r =
      (t' : ℕ) × (u' : ℕ) × Kept r.0 t' u'
      × (u ≤ u')
      × (u' ≤ v)
      × (granted_by n r.1 + t' ≤ t + (u' - u) * rate)

  script-Spent :
      (s : S) (t u n v : ℕ)
      → Kept s t u
      → u ≤ v
      → n ≤ exact_limit
      → v ≤ exact_limit
      → capacity ≤ exact_limit
      → t + (v - u) * rate ≤ exact_limit
      → Spent t u n v (script s n v)
  unfolding bucket
  script-Spent s t u n v (a, b, got, ta, tb) h hn hv hc ht =
      rw (script-consume s (some a) (some b) t u n v got (rw (ta, bucket, tb) refl) h hv hc ht) (
        let small : refilled t u v ≤ exact_limit =
          ground (arith, min-le_left capacity (t + (v - u) * rate)) in
        elim (consume-Kept s (refilled t u v) n v (small) hn hv) [
          | inl (same, zero_) ↦
              rw (same, zero_) (t, u, (a, b, got, ta, tb), omega arith, h, no_time u rate t)
          | inr (t', kept, spent) ↦ (
            t',
            v,
            kept,
            h,
            omega arith,
            ground (arith, min-le_right capacity (t + (v - u) * rate)),
          )
        ])

  script-missing :
      (s : S) (n v : ℕ)
      → redis.hmget s key "tokens" "last_update" ≡ done (none, none)
      → n ≤ exact_limit
      → v ≤ exact_limit
      → capacity ≤ exact_limit
      → let r = script s n v in
        ((r.0 ≡ s) × (granted_by n r.1 ≡ 0))
        ⊎ ((t : ℕ) × Kept r.0 t v × (granted_by n r.1 + t ≤ capacity))
  unfolding bucket
  script-missing s n v got hn hv hc =
      let idle : capacity + (v - v) * rate ≤ exact_limit =
        rw (sub_self v, zero-mul rate) (omega arith) in
      let small : refilled capacity v v ≤ exact_limit =
        ground (arith, min-le_left capacity (capacity + (v - v) * rate)) in
      rw (script-consume s none none capacity v n v got refl (omega arith) hv hc idle)
        (elim (consume-Kept s (refilled capacity v v) n v small hn hv) [
          | inl unchanged ↦ inl unchanged
          | inr (t, kept, spent) ↦
              inr (t, kept, ground (arith, min-le_left capacity (capacity + (v - v) * rate)))
        ])

  allow_request-script :
      (s : S) (n now : ℕ)
      → allow_request fl lua redis s dimension (pos n) now ≡ script s n (unix now)
  unfolding allow_request
  allow_request-script s n now = refl

  granted-Kept :
      (s : S) (calls : Calls) (t u cur w : ℕ)
      → Kept s t u
      → u ≤ cur
      → Lives redis key s cur w
      → w < cur + 3600
      → Within cur w calls
      → w ≤ exact_limit
      → capacity ≤ exact_limit
      → t + (w - u) * rate ≤ exact_limit
      → total s cur calls ≤ t + (w - u) * rate
  unfolding granted
  granted-Kept s [] t u cur w kept uc lives near h hw hc ht = omega arith
  granted-Kept s ((n, now) ∷ rest) t u cur w (a, b, got, ta, tb) uc lives near (h, hn, hs) hw hc
        ht =
      let later : unix now ≤ w = Within-le (unix now) w rest hs in
      let split : (unix now - u) * rate + (w - unix now) * rate ≡ (w - u) * rate =
        mul_elapsed u (unix now) w rate (omega arith) later in
      let (same, alive) = wait-Lives fl lua redis laws key s cur (unix now) w h later lives in
      let (t', u', kept', hu, hv, spent) =
        script-Spent (redis.wait (unix now - cur) s) t u n (unix now) (a, b, same ∙ got, ta, tb)
          (omega arith) hn (omega arith) hc (omega arith) in
      let after : (u' - u) * rate + (w - u') * rate ≡ (w - u) * rate =
        mul_elapsed u u' w rate hu (omega arith) in
      let others : total (script (redis.wait (unix now - cur) s) n (unix now)).0 (unix now) rest
          ≤ t' + (w - u') * rate =
        granted-Kept (script (redis.wait (unix now - cur) s) n (unix now)).0 rest t' u' (unix now) w
          kept' hv
          (call-Lives fl lua redis laws key s (whole fl capacity) (whole fl rate) (whole fl n)
            (whole fl (unix now)) cur (unix now) w h later (omega arith) lives)
          (omega arith) hs hw hc (omega arith) in
      rw (allow_request-script (redis.wait (unix now - cur) s) n now) (omega arith)

  -- On a bucket that is not there at second u, and as long as the numbers stay below 2^53, calls that
  -- come one after the other up to second w, less than the hour after which a bucket expires, are
  -- together granted at most the capacity and what the rate brings in from u to w.
  pub granted-le :
      (s : S) (calls : Calls) (u w : ℕ)
      → redis.hmget s key "tokens" "last_update" ≡ done (none, none)
      → redis.ttl s key ≡ none
      → w < u + 3600
      → Within u w calls
      → w ≤ exact_limit
      → capacity + (w - u) * rate ≤ exact_limit
      → granted fl lua redis kind identifier capacity rate s u calls ≤ capacity + (w - u) * rate
  unfolding granted
  granted-le s [] u w got lasting near h hw hc = omega arith
  granted-le s ((n, now) ∷ rest) u w got lasting near (h, hn, hs) hw hc =
      let later : unix now ≤ w = Within-le (unix now) w rest hs in
      let split : (unix now - u) * rate + (w - unix now) * rate ≡ (w - u) * rate =
        mul_elapsed u (unix now) w rate h later in
      let (same, still) = laws.wait-lasting s key "tokens" "last_update" (unix now - u) lasting in
      rw (allow_request-script (redis.wait (unix now - u) s) n now)
        (elim (script-missing (redis.wait (unix now - u) s) n (unix now) (same ∙ got) hn
          (omega arith) (omega arith)) [
            | inl (unchanged, zero_) ↦
                let others : total (redis.wait (unix now - u) s) (unix now) rest
                    ≤ capacity + (w - unix now) * rate =
                  granted-le (redis.wait (unix now - u) s) rest (unix now) w (same ∙ got) still
                    (omega arith) hs hw (omega arith) in
                rw (unchanged, zero_) (omega arith)
            | inr (t, kept, spent) ↦
                let others : total (script (redis.wait (unix now - u) s) n (unix now)).0 (unix now)
                      rest
                    ≤ t + (w - unix now) * rate =
                  granted-Kept (script (redis.wait (unix now - u) s) n (unix now)).0 rest t
                    (unix now) (unix now) w kept (omega arith)
                    (call-Lives fl lua redis laws key s (whole fl capacity) (whole fl rate)
                      (whole fl n) (whole fl (unix now)) u (unix now) w h later (omega arith)
                      (inl lasting))
                    (omega arith) hs hw (omega arith) (omega arith) in
                omega arith
          ])
