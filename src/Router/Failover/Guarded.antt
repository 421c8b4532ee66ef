-- ===== src/Router/Failover/Guarded.antt =====
-- The executor of internal/router/failover.go with the circuit breaker of internal/breaker, and what it
-- sends to a key whose breaker is open.
use llmapi_gate_way.Breaker.Circuit.{
  state_open, CircuitBreaker, SlidingWindow, Readings, allow_request, record_success,
  record_failure, Call, allows, succeeds, fails, step,
}
use llmapi_gate_way.Breaker.Circuit.States.{config-step}
use llmapi_gate_way.Breaker.Circuit.HalfOpen.{
  IsOpenSince, IsEarly, step-IsOpenSince, IsOpenSince-refuses,
}
use llmapi_gate_way.Router.Types.{ApiKeyConfig, RouteRule, Outcome, ok, err, panicked}
use llmapi_gate_way.Router.Manager.{RouteManager}
use llmapi_gate_way.Router.Failover.{FailoverError, World, attempt, try_key, execute_with_failover}
use llmapi_gate_way.Router.Failover.Keeps.{Kept, execute_with_failover-Kept}
use llmapi_gate_way.Common.{
  ℕ, String, ◌≡◌, refl, ap, ◌∙◌, inl, inr, false, Option, some, List, [], ◌∷◌, ◌==◌, eq_iff,
  Bool-cases, Option-cases, All,
}
use llmapi_gate_way.Common.Int.{ℤ}
use llmapi_gate_way.Common.Assoc.{Assoc, lookup}
use llmapi_gate_way.Common.Time.{Time}
use llmapi_gate_way.Common.Float.{Float64}

-- What is around the breaker: the clock, the request itself, and the random source.
pub record Surroundings (S E : Type 0) : Type 0 where
  pub readings : S → Readings
  pub send : String → S → S × Option E
  pub draw : S → S × (ℕ → ℕ)

module _ (fl : Float64) {S E : Type 0} (around : Surroundings S E) where
  -- The breaker, the surroundings, and the keys that requests were sent with, the last one first.
  abbrev pub Guard : Type 0
  Guard = CircuitBreaker fl.F × (S × List String)

  -- The world of an executor that `NewFailoverExecutor` makes with the circuit breaker.
  unfoldable pub guarded : World Guard E
  guarded = record {
    allow_request = λ key (cb, (s, sent)).
        (let (cb', allowed) = allow_request fl cb key (around.readings s) in
          ((cb', (s, sent)), allowed));
    record_success =
        λ key (cb, (s, sent)). (record_success fl cb key (around.readings s), (s, sent));
    record_failure =
        λ key (cb, (s, sent)). (record_failure fl cb key (around.readings s), (s, sent));
    execute = λ key (cb, (s, sent)).
        (let (s', result) = around.send key s in ((cb, (s', key ∷ sent)), result));
    rand = λ (cb, (s, sent)). (let (s', intn) = around.draw s in ((cb, (s', sent)), intn));
  }

  module _ (key : String) (timeout : ℤ) (opened : Time) where
    -- The breaker of the key is open since then, and nothing was sent with it.
    abbrev pub IsSpared : Guard → Type 0
    IsSpared (cb, (s, sent)) =
        (cb.config.half_open_timeout ≡ timeout)
        × IsOpenSince fl opened (lookup key cb.windows)
        × All (λ k. (k == key) ≡ false) sent

    Kept-IsSpared :
        (r : (RouteManager × Guard) × Outcome (FailoverError E) (Unit {0}))
        (rules : Assoc (Option RouteRule))
        → Kept guarded rules (λ b g. IsSpared g) r
        → IsSpared r.0.1
    Kept-IsSpared (st, ok u) rules p = p.1
    Kept-IsSpared (st, err e) rules p = p.1
    Kept-IsSpared (st, panicked) rules p = p.1

    rand-IsSpared : (g : Guard) → IsSpared g → IsSpared (guarded.rand g).0
    unfolding guarded
    rand-IsSpared (cb, (s, sent)) p = p

    module _ (early : (s : S) → IsEarly fl timeout opened (allows (around.readings s))) where
      step-IsSpared :
          (cb : CircuitBreaker fl.F) (s : S) (sent : List String) (other : String) (c : Call fl)
          → IsEarly fl timeout opened c
          → IsSpared (cb, (s, sent))
          → IsSpared (step fl cb other c, (s, sent))
      step-IsSpared cb s sent other c soon (same, held, spared) = (
        ap (λ config. config.half_open_timeout) (config-step fl cb other c) ∙ same,
        step-IsOpenSince fl cb key other opened c (rw same soon) held,
        spared,
      )

      attempt-IsSpared :
          (other : String) (g : Guard)
          → (other == key) ≡ false
          → IsSpared g
          → IsSpared (attempt guarded other g).0
      unfolding attempt guarded step
      attempt-IsSpared other (cb, (s, sent)) differs (same, held, spared) =
          elim (Option-cases (around.send other s).1) [
            | inl fine ↦
                rw (fine, attempt)
                  (step-IsSpared cb (around.send other s).0 (other ∷ sent) other (succeeds _) tt
                    (same, held, (differs, spared)))
            | inr (e, bad) ↦
                rw (bad, attempt)
                  (step-IsSpared cb (around.send other s).0 (other ∷ sent) other (fails _) tt
                    (same, held, (differs, spared)))
          ]

      try_key-IsSpared :
          (k : ApiKeyConfig) (g : Guard) → IsSpared g → IsSpared (try_key guarded k g).0
      unfolding try_key guarded step
      try_key-IsSpared k (cb, (s, sent)) (same, held, spared) =
          let asked : IsSpared (step fl cb k.key (allows (around.readings s)), (s, sent)) =
            step-IsSpared cb s sent k.key (allows (around.readings s)) (early s)
              (same, held, spared) in
          elim (Bool-cases (allow_request fl cb k.key (around.readings s)).1) [
            | inr refused ↦ rw (refused, try_key) asked
            | inl allowed ↦ elim (Bool-cases (k.key == key)) [
              | inr differs ↦ rw (allowed, try_key) (attempt-IsSpared k.key _ differs asked)
              | inl own ↦
                  let refused : (allow_request fl cb key (around.readings s)).1 ≡ false =
                    IsOpenSince-refuses fl cb key opened (around.readings s) (rw same (early s))
                      held in
                  absurd (cc (rw ((eq_iff k.key key).0 own) at allowed))
            ]
          ]

  -- While the breaker of a key is open and its timeout has not passed, failover sends no request with that
  -- key on any of its levels, whatever the rules are and whatever else it sends.
  pub execute_with_failover-IsSpared :
      (key model_id : String) (m : RouteManager) (cb : CircuitBreaker fl.F) (w : SlidingWindow)
      (s : S)
      → lookup key cb.windows ≡ some w
      → w.state ≡ state_open
      → ((s' : S)
          → IsEarly fl cb.config.half_open_timeout w.last_state_change
              (allows (around.readings s')))
      → All
          (λ k. (k == key) ≡ false)
          (execute_with_failover guarded model_id (m, (cb, (s, [])))).0.1.1.1
  execute_with_failover-IsSpared key model_id m cb w s held tripped early =
      (Kept-IsSpared key cb.config.half_open_timeout w.last_state_change
        (execute_with_failover guarded model_id (m, (cb, (s, [])))) m.rules
        (execute_with_failover-Kept guarded m.rules
          (λ b g. IsSpared key cb.config.half_open_timeout w.last_state_change g)
          (λ k g c p.
            try_key-IsSpared key cb.config.half_open_timeout w.last_state_change early k g p)
          (rand-IsSpared key _ _) model_id m (cb, (s, [])) refl
          (refl, rw held (tripped, refl), tt))).2
