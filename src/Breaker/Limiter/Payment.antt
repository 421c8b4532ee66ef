-- ===== src/Breaker/Limiter/Payment.antt =====
-- What a request pays at one bucket of internal/breaker/limiter.go.
use Prim.Native.String.{◌++◌ as concat}
use Prim.Native.Char.{Char, code}
use Prim.Native.String.String.{◌∷◌ as char_cons}
use text.Mathlib.TextLemmas.{append_cancel_left}
use llmapi_gate_way.Common.{
  ℕ, String, ◌≡◌, refl, sym, ap, ◌∙◌, ◌≢◌, inl, inr, Bool, true, false, Option, some, arith,
  Bool-cases, ne_of_eq_false,
}
use llmapi_gate_way.Common.Int.{ℤ}
use llmapi_gate_way.Common.Time.{unix}
use llmapi_gate_way.Common.Float.{Float64}
use llmapi_gate_way.Common.Split.{differ_at_head}
use llmapi_gate_way.Common.Result.{Result, done, failed, Result-cases}
use llmapi_gate_way.Breaker.Limiter.{
  RateLimitDimension, Hashes, HashLaws, Texts, build_key, whole, refill, number, bucket, consume,
  token_bucket_script, allow_request,
}

build_key-ne :
    (a b : Char) (l m x y : String)
    → code a ≢ code b
    → build_key (char_cons a l) x ≢ build_key (char_cons b m) y
unfolding build_key
build_key-ne a b l m x y differs h =
    differ_at_head a b l m (concat ":" x) (concat ":" y) differs
      (append_cancel_left "ratelimit:" _ _ h)

pub user-ne-app : (x y : String) → build_key "user" x ≢ build_key "app" y
user-ne-app x y = build_key-ne "u" "a" "ser" "pp" x y (λ e. omega arith)

pub user-ne-model : (x y : String) → build_key "user" x ≢ build_key "model" y
user-ne-model x y = build_key-ne "u" "m" "ser" "odel" x y (λ e. omega arith)

pub app-ne-model : (x y : String) → build_key "app" x ≢ build_key "model" y
app-ne-model x y = build_key-ne "a" "m" "pp" "odel" x y (λ e. omega arith)

module _ (fl : Float64) (lua : Texts fl.F) {S : Type 0} (redis : Hashes S) where
  abbrev pub key_of : RateLimitDimension fl.F → String
  key_of dim = build_key dim.kind dim.identifier

  abbrev pub fields_at : S → String → Result String (Option String × Option String)
  fields_at s k = redis.hmget s k "tokens" "last_update"

  -- Before, the bucket of the dimension had the tokens by `now`; after, it is without them.
  abbrev pub Paid : RateLimitDimension fl.F → ℤ → ℕ → S → S → Type 0
  Paid dim tokens now s s' =
      (held : Option String) × (at_time : Option String) × (t : fl.F) × (u : fl.F) × (fields_at s
          (key_of dim)
        ≡ done (held, at_time))
      × (bucket fl lua redis (fl.of_int dim.capacity) (whole fl (unix now))
            (number fl lua redis held) (number fl lua redis at_time)
          ≡ done (t, u))
      × (fl.le (fl.of_int tokens)
            (refill fl (fl.of_int dim.capacity) dim.rate t u (whole fl (unix now)))
          ≡ true)
      × (fields_at s' (key_of dim)
          ≡ done (
            some (
                lua.tostring (
                  fl.sub (refill fl (fl.of_int dim.capacity) dim.rate t u (whole fl (unix now)))
                    (fl.of_int tokens))),
            some (lua.tostring (whole fl (unix now))),
          ))

module _ (fl : Float64) (lua : Texts fl.F) {S : Type 0} (redis : Hashes S)
    (laws : HashLaws redis) where
  abbrev key : RateLimitDimension fl.F → String
  key = key_of fl lua redis

  abbrev fields : S → String → Result String (Option String × Option String)
  fields = fields_at fl lua redis

  pub Paid-frame :
      (dim : RateLimitDimension fl.F) (tokens : ℤ) (now : ℕ) (s m s' s'' : S)
      → fields m (key dim) ≡ fields s (key dim)
      → fields s'' (key dim) ≡ fields s' (key dim)
      → Paid fl lua redis dim tokens now m s'
      → Paid fl lua redis dim tokens now s s''
  Paid-frame dim tokens now s m s' s'' before after (held, at_time, t, u, got, full, enough, left) =
      (held, at_time, t, u, sym before ∙ got, full, enough, after ∙ left)

  answered :
      (m s' : S) (r : Result String Bool)
      → ◌≡◌ {A = S × Result String Bool} (m, r) (s', done true)
      → r ≡ done true
  answered m s' r h = ap (λ p. p.1) h

  consume-fields :
      (s s' : S) (k : String) (tokens requested now : fl.F)
      → consume fl lua redis s k tokens requested now ≡ (s', done true)
      → (fl.le requested tokens ≡ true)
        × (fields s' k
            ≡ done (some (lua.tostring (fl.sub tokens requested)), some (lua.tostring now)))
  unfolding consume
  consume-fields s s' k tokens requested now h = elim (Bool-cases (fl.le requested tokens)) [
    | inr short ↦ absurd (cc (answered s s' (done false) (rw (short, consume) at h)))
    | inl enough ↦
        elim (Result-cases (
          redis.hmset s k ("tokens", lua.tostring (fl.sub tokens requested))
            ("last_update", lua.tostring now))) [
              | inr (e, he) ↦ absurd (cc (answered s s' (failed e) (rw (enough, consume, he) at h)))
              | inl (m, hm) ↦ elim (Result-cases (redis.expire m k 3600)) [
                | inr (e, hx) ↦
                    absurd (cc (answered m s' (failed e) (rw (enough, consume, hm, hx) at h)))
                | inl (x, hx) ↦
                    let last : ◌≡◌ {A = S × Result String Bool} (x, done true) (s', done true) =
                      rw (enough, consume, hm, hx) at h in
                    (
                      enough,
                      rw
                          (
                            sym (ap (λ p. p.0) last),
                            laws.hmget-expire m x k k "tokens" "last_update" 3600 (omega arith) hx,
                          )
                          (laws.hmget-hmset s m k "tokens" "last_update" _ _
                            (ne_of_eq_false "tokens" "last_update" refl) hm),
                    )
              ]
            ]
  ]

  consume-other :
      (s : S) (k other : String) (tokens requested now : fl.F)
      → k ≢ other
      → fields (consume fl lua redis s k tokens requested now).0 other ≡ fields s other
  unfolding consume
  consume-other s k other tokens requested now differs =
      elim (Bool-cases (fl.le requested tokens)) [
        | inr short ↦ rw (short, consume) refl
        | inl enough ↦
            elim (Result-cases (
              redis.hmset s k ("tokens", lua.tostring (fl.sub tokens requested))
                ("last_update", lua.tostring now))) [
                  | inr (e, he) ↦ rw (enough, consume, he) refl
                  | inl (m, hm) ↦
                      let same : fields m other ≡ fields s other =
                        laws.hmget-hmset_other s m k other "tokens" "last_update" _ _ differs hm in
                      elim (Result-cases (redis.expire m k 3600)) [
                        | inr (e, hx) ↦ rw (enough, consume, hm, hx) same
                        | inl (x, hx) ↦
                            rw (enough, consume, hm, hx)
                              (laws.hmget-expire m x k other "tokens" "last_update" 3600
                                  (omega arith) hx
                                ∙ same)
                      ]
                ]
      ]

  pub allow_request-Paid :
      (s s' : S) (dim : RateLimitDimension fl.F) (tokens : ℤ) (now : ℕ)
      → allow_request fl lua redis s dim tokens now ≡ (s', done true)
      → Paid fl lua redis dim tokens now s s'
  unfolding allow_request token_bucket_script
  allow_request-Paid s s' dim tokens now h = elim (Result-cases (fields s (key dim))) [
    | inr (e, he) ↦ absurd (cc (answered s s' (failed e) (rw (he, token_bucket_script) at h)))
    | inl ((held, at_time), got) ↦
        elim (Result-cases (
          bucket fl lua redis (fl.of_int dim.capacity) (whole fl (unix now))
            (number fl lua redis held) (number fl lua redis at_time))) [
              | inr (e, hb) ↦
                  absurd (cc (answered s s' (failed e) (rw (got, token_bucket_script, hb) at h)))
              | inl ((t, u), hb) ↦
                  let (enough, left) =
                    consume-fields s s' (key dim) _ _ _ (rw (got, token_bucket_script, hb) at h) in
                  (held, at_time, t, u, got, hb, enough, left)
            ]
  ]

  pub allow_request-other :
      (s : S) (dim : RateLimitDimension fl.F) (tokens : ℤ) (now : ℕ) (other : String)
      → key dim ≢ other
      → fields (allow_request fl lua redis s dim tokens now).0 other ≡ fields s other
  unfolding allow_request token_bucket_script
  allow_request-other s dim tokens now other differs = elim (Result-cases (fields s (key dim))) [
    | inr (e, he) ↦ rw (he, token_bucket_script) refl
    | inl ((held, at_time), got) ↦
        elim (Result-cases (
          bucket fl lua redis (fl.of_int dim.capacity) (whole fl (unix now))
            (number fl lua redis held) (number fl lua redis at_time))) [
              | inr (e, hb) ↦ rw (got, token_bucket_script, hb) refl
              | inl ((t, u), hb) ↦
                  rw (got, token_bucket_script, hb) (consume-other s (key dim) other _ _ _ differs)
            ]
  ]
