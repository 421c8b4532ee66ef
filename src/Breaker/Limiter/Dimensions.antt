-- ===== src/Breaker/Limiter/Dimensions.antt =====
-- `CheckMultiDimension` of internal/breaker/limiter.go: what a request pays in the three dimensions.
use llmapi_gate_way.Common.{
  ℕ, suc, String, ◌≡◌, refl, sym, ap, ◌∙◌, ◌≢◌, ◌⊎◌, inl, inr, Bool, true, false, Option, none,
  some, List, [], ◌∷◌, ne_of_eq_false, some_inj,
}
use llmapi_gate_way.Common.Int.{ℤ}
use llmapi_gate_way.Common.Float.{Float64}
use llmapi_gate_way.Common.Result.{Result, done, failed, Result-cases}
use llmapi_gate_way.Breaker.Limiter.{
  RateLimitDimension, RateLimitFailure, rate_limit_exceeded, check_failed, RateLimiterConfig,
  Hashes, HashLaws, Texts, allow_request, check_dimensions, check_multi_dimension,
}
use llmapi_gate_way.Breaker.Limiter.Payment.{
  user-ne-app, user-ne-model, app-ne-model, key_of, fields_at, Paid, Paid-frame, allow_request-Paid,
  allow_request-other,
}

abbrev kind_of : RateLimitFailure → String
kind_of (rate_limit_exceeded kind identifier) = kind
kind_of (check_failed e) = ""

not_model :
    (id : String) (e : RateLimitFailure) (kind : String)
    → ◌≢◌ {A = String} "model" kind
    → ◌≡◌ {A = Option RateLimitFailure} (some (rate_limit_exceeded "model" id)) (some e)
    → (kind_of e ≡ kind) ⊎ (kind_of e ≡ "")
    → ⊥
not_model id e kind differs he why =
    let said : ◌≡◌ {A = String} "model" (kind_of e) = ap kind_of (some_inj he) in
    elim why [ inl h ↦ differs (said ∙ h) | inr h ↦ ne_of_eq_false "model" "" refl (said ∙ h) ]

module _ (fl : Float64) (lua : Texts fl.F) {S : Type 0} (redis : Hashes S)
    (laws : HashLaws redis) where
  abbrev key : RateLimitDimension fl.F → String
  key = key_of fl lua redis

  abbrev fields : S → String → Result String (Option String × Option String)
  fields = fields_at fl lua redis

  -- The loop goes on after a dimension that allows the request, or ends with its error.
  abbrev Goes :
      S
      → S
      → RateLimitDimension fl.F
      → List (RateLimitDimension fl.F)
      → ℤ
      → (ℕ → ℕ)
      → Option RateLimitFailure
      → Type 0
  Goes s s' dim rest tokens clock r =
      ((m : S) × (allow_request fl lua redis s dim tokens (clock 0) ≡ (m, done true))
        × (check_dimensions fl lua redis m rest tokens (λ i. clock (suc i)) ≡ (s', r)))
      ⊎ ((e : RateLimitFailure) × (r ≡ some e) × ((kind_of e ≡ dim.kind) ⊎ (kind_of e ≡ "")))

  check-Goes :
      (s s' : S) (dim : RateLimitDimension fl.F) (rest : List (RateLimitDimension fl.F))
      (tokens : ℤ) (clock : ℕ → ℕ) (r : Option RateLimitFailure) (a : S × Result String Bool)
      → check_dimensions fl lua redis s (dim ∷ rest) tokens clock ≡ (s', r)
      → allow_request fl lua redis s dim tokens (clock 0) ≡ a
      → Goes s s' dim rest tokens clock r
  unfolding check_dimensions
  check-Goes s s' dim rest tokens clock r (m, done true) h e =
      inl (m, e, rw (ap (λ p. p.0) e) at (rw (ap (λ p. p.1) e, check_dimensions) at h))
  check-Goes s s' dim rest tokens clock r (m, done false) h e = inr (
    rate_limit_exceeded dim.kind dim.identifier,
    sym (ap (λ p. p.1) (rw (e, check_dimensions) at h)),
    inl refl,
  )
  check-Goes s s' dim rest tokens clock r (m, failed x) h e =
      inr (check_failed x, sym (ap (λ p. p.1) (rw (e, check_dimensions) at h)), inr refl)

  check-one :
      (s : S) (dim : RateLimitDimension fl.F) (tokens : ℤ) (clock : ℕ → ℕ)
      → (check_dimensions fl lua redis s (dim ∷ []) tokens clock).0
        ≡ (allow_request fl lua redis s dim tokens (clock 0)).0
  unfolding check_dimensions
  check-one s dim tokens clock =
      elim (Result-cases (allow_request fl lua redis s dim tokens (clock 0)).1) [
        | inr (e, h) ↦ rw (h, check_dimensions) refl
        | inl (true, h) ↦ rw (h, check_dimensions) refl
        | inl (false, h) ↦ rw (h, check_dimensions) refl
      ]

  module _ (rl : RateLimiterConfig fl.F) (user_id app_id model_id : String) (tokens : ℤ)
      (clock : ℕ → ℕ) where
    abbrev user : RateLimitDimension fl.F
    user = record {
      kind = "user";
      identifier = user_id;
      capacity = rl.user_capacity;
      rate = rl.user_rate;
    }

    abbrev app : RateLimitDimension fl.F
    app = record {
      kind = "app";
      identifier = app_id;
      capacity = rl.app_capacity;
      rate = rl.app_rate;
    }

    abbrev model : RateLimitDimension fl.F
    model = record {
      kind = "model";
      identifier = model_id;
      capacity = rl.model_capacity;
      rate = rl.model_rate;
    }

    -- The first two dimensions allow the request.
    allow_request-two :
        (s m m' : S)
        → allow_request fl lua redis s user tokens (clock 0) ≡ (m, done true)
        → allow_request fl lua redis m app tokens (clock 1) ≡ (m', done true)
        → Paid fl lua redis user tokens (clock 0) s m' × Paid fl lua redis app tokens (clock 1) s m'
    allow_request-two s m m' first second_ = (
      Paid-frame fl lua redis laws user tokens (clock 0) s s m m' refl
          (rw (ap (λ p. p.0) second_) at (
            allow_request-other fl lua redis laws m app tokens (clock 1) (key user)
              (λ e. user-ne-app user_id app_id (sym e))))
          (allow_request-Paid fl lua redis laws s m user tokens (clock 0) first),
      Paid-frame fl lua redis laws app tokens (clock 1) s m m' m'
          (rw (ap (λ p. p.0) first) at (
            allow_request-other fl lua redis laws s user tokens (clock 0) (key app)
              (user-ne-app user_id app_id)))
          refl (allow_request-Paid fl lua redis laws m m' app tokens (clock 1) second_),
    )

    -- The model's bucket, which is the last, leaves the other two alone.
    allow_request-last :
        (s m' s' : S) (r : Option RateLimitFailure)
        → check_dimensions fl lua redis m' (model ∷ []) tokens (λ i. clock (suc (suc i))) ≡ (s', r)
        → Paid fl lua redis user tokens (clock 0) s m' × Paid fl lua redis app tokens (clock 1) s m'
        → Paid fl lua redis user tokens (clock 0) s s' × Paid fl lua redis app tokens (clock 1) s s'
    allow_request-last s m' s' r h (user_paid, app_paid) =
        let ends : (allow_request fl lua redis m' model tokens (clock 2)).0 ≡ s' =
          sym (check-one m' model tokens (λ i. clock (suc (suc i)))) ∙ ap (λ p. p.0) h in
        let stays : (k : String) → key model ≢ k → fields s' k ≡ fields m' k = λ k apart.
          rw ends at (allow_request-other fl lua redis laws m' model tokens (clock 2) k apart) in
        (
          Paid-frame fl lua redis laws user tokens (clock 0) s s m' s' refl
              (stays (key user) (λ e. user-ne-model user_id model_id (sym e))) user_paid,
          Paid-frame fl lua redis laws app tokens (clock 1) s s m' s' refl
              (stays (key app) (λ e. app-ne-model app_id model_id (sym e))) app_paid,
        )

    -- A request that passes has paid in all three dimensions.
    pub check_multi_dimension-Paid :
        (s s' : S)
        → check_multi_dimension fl lua redis rl s user_id app_id model_id tokens clock ≡ (s', none)
        → Paid fl lua redis user tokens (clock 0) s s'
          × Paid fl lua redis app tokens (clock 1) s s'
          × Paid fl lua redis model tokens (clock 2) s s'
    unfolding check_multi_dimension check_dimensions
    check_multi_dimension-Paid s s' h =
        elim (check-Goes s s' user (app ∷ model ∷ []) tokens clock none _ h refl) [
          | inr (e, he, _) ↦ absurd (cc he)
          | inl (m, first, h1) ↦
              elim (check-Goes m s' app (model ∷ []) tokens (λ i. clock (suc i)) none _ h1 refl) [
                | inr (e, he, _) ↦ absurd (cc he)
                | inl (m', second_, h2) ↦
                    elim (check-Goes m' s' model [] tokens (λ i. clock (suc (suc i))) none _ h2
                      refl) [
                        | inr (e, he, _) ↦ absurd (cc he)
                        | inl (m'', third, h3) ↦
                            let (user_paid, app_paid) =
                              allow_request-last s m' s' none h2
                                (allow_request-two s m m' first second_) in
                            let came : fields m' (key model) ≡ fields s (key model) =
                              rw (ap (λ p. p.0) second_) at (
                                allow_request-other fl lua redis laws m app tokens (clock 1)
                                  (key model) (app-ne-model app_id model_id))
                              ∙ rw (ap (λ p. p.0) first) at (
                                  allow_request-other fl lua redis laws s user tokens (clock 0)
                                    (key model) (user-ne-model user_id model_id)) in
                            (
                              user_paid,
                              app_paid,
                              Paid-frame fl lua redis laws model tokens (clock 2) s m' m'' s' came
                                  (ap (λ k. fields k (key model)) (sym (ap (λ p. p.0) h3)))
                                  (allow_request-Paid fl lua redis laws m' m'' model tokens
                                    (clock 2) third),
                            )
                      ]
              ]
        ]

    -- A request that is refused at the model's bucket has paid in the other two all the same.
    pub check_multi_dimension-refused :
        (s s' : S) (id : String)
        → check_multi_dimension fl lua redis rl s user_id app_id model_id tokens clock
          ≡ (s', some (rate_limit_exceeded "model" id))
        → Paid fl lua redis user tokens (clock 0) s s' × Paid fl lua redis app tokens (clock 1) s s'
    unfolding check_multi_dimension check_dimensions
    check_multi_dimension-refused s s' id h =
        elim (check-Goes s s' user (app ∷ model ∷ []) tokens clock
          (some (rate_limit_exceeded "model" id)) _ h refl) [
            | inr (e, he, why) ↦
                absurd (not_model id e "user" (ne_of_eq_false "model" "user" refl) he why)
            | inl (m, first, h1) ↦
                elim (check-Goes m s' app (model ∷ []) tokens (λ i. clock (suc i))
                  (some (rate_limit_exceeded "model" id)) _ h1 refl) [
                    | inr (e, he, why) ↦
                        absurd (not_model id e "app" (ne_of_eq_false "model" "app" refl) he why)
                    | inl (m', second_, h2) ↦
                        allow_request-last s m' s' _ h2 (allow_request-two s m m' first second_)
                  ]
          ]
