-- ===== src/Breaker/Circuit/Threshold.antt =====
-- The error rate of internal/breaker/circuit.go against its threshold: when a breaker cannot open,
-- and when a probe that succeeds closes it.
use llmapi_gate_way.Common.{
  ℕ, zero, suc, ◌+◌, ◌*◌, ◌<◌, String, ◌≡◌, refl, ap, ◌∙◌, inl, inr, Bool, true, false, Option,
  none, some, List, [], ◌∷◌, arith, eq_refl, eqb, Bool-cases, length, modify, All,
}
use llmapi_gate_way.Common.Int.{pos, ltb_ℤ, leb_ℤ}
use llmapi_gate_way.Common.Assoc.{lookup}
use llmapi_gate_way.Common.Time.{at, since}
use llmapi_gate_way.Common.Float.{Float64}
use llmapi_gate_way.Breaker.Circuit.{
  state_closed, state_open, state_half_open, CircuitBreakerConfig, CircuitBreaker, Bucket,
  SlidingWindow, Readings, new_circuit_breaker, new_window, bump, record_result, in_window, totals,
  calculate_error_rate, admit, allow_request, succeed, fail, get_state, Call, allows, succeeds,
  fails, run,
}
use llmapi_gate_way.Breaker.Circuit.States.{
  after, state_of, lookup-step, config-step, run_inv, every, get_state-state_of, answer,
  allow_request-answer,
}
use llmapi_gate_way.Common.Float.{HasRatios}
use llmapi_gate_way.Breaker.Circuit.Window.{IsValid, bucket_index-lt}

module _ (fl : Float64) (ratios : HasRatios fl) where
  open fl use {F, of_int, lt}

  rate-le-one :
      (w : SlidingWindow) (now : ℕ) → lt (of_int (pos 1)) (calculate_error_rate fl w now) ≡ false
  unfolding calculate_error_rate
  rate-le-one w now =
      let (s, f) = totals (w.total_buckets * w.bucket_size) now w.buckets in
      elim (Bool-cases (eqb (s + f) 0)) [
        | inl none_counted ↦ rw none_counted ratios.zero-le-one
        | inr counted ↦ rw counted (ratios.ratio-le-one f (s + f) (omega arith) (ground arith))
      ]

  after-closed :
      (config : CircuitBreakerConfig F) (o : Option SlidingWindow) (c : Call fl)
      → config.error_threshold ≡ of_int (pos 1)
      → state_of fl o ≡ state_closed
      → state_of fl (after fl config o c) ≡ state_closed
  unfolding admit succeed fail record_result new_window
  after-closed config none (allows t) e h = refl
  after-closed config none (succeeds t) e h = refl
  after-closed config none (fails t) e h =
      ground
        (arith, rate-le-one (record_result (new_window config t.created) false t.recorded) t.rated)
  after-closed config (some w) (allows t) e h = ground arith
  after-closed config (some w) (succeeds t) e h = ground arith
  after-closed config (some w) (fails t) e h =
      ground (arith, rate-le-one (record_result w false t.recorded) t.rated)

  -- With an error threshold of 1, which the configuration accepts, the breaker of no key ever leaves
  -- the closed state, whatever calls are made: no error rate is above 1.
  pub threshold_one-closed :
      (config : CircuitBreakerConfig F) (key : String) (cs : List (String × Call fl))
      → config.error_threshold ≡ of_int (pos 1)
      → get_state fl (run fl (new_circuit_breaker config) cs) key ≡ state_closed
  unfolding new_circuit_breaker lookup
  threshold_one-closed config key cs e =
      get_state-state_of fl _ key
      ∙ run_inv fl config (λ o. state_of fl o ≡ state_closed) (λ _. Unit {0}) key
          (λ o c _. after-closed config o c e) cs _ refl (every fl key cs) refl

totals_stale :
    (span now : ℕ) (bs : List Bucket)
    → All (λ b. in_window span now b ≡ false) bs
    → totals span now bs ≡ (0, 0)
unfolding totals
totals_stale span now [] h = refl
totals_stale span now (b ∷ bs) h = rw (h.0, totals_stale span now bs h.1)

-- Every bucket is too old to count for `rated`, and old enough to be reset at `recorded`.
abbrev pub AllStale : SlidingWindow → Readings → List Bucket → Type 0
AllStale w u = All λ b.
    (in_window (w.total_buckets * w.bucket_size) u.rated b ≡ false)
    × (ltb_ℤ (pos w.bucket_size) (since u.recorded b.timestamp) ≡ true)

AllStale-out :
    (w : SlidingWindow) (u : Readings) (bs : List Bucket)
    → AllStale w u bs
    → All (λ b. in_window (w.total_buckets * w.bucket_size) u.rated b ≡ false) bs
AllStale-out w u [] h = tt
AllStale-out w u (b ∷ bs) h = (h.0.0, AllStale-out w u bs h.1)

totals_probe :
    (w : SlidingWindow) (u : Readings) (bs : List Bucket) (i : ℕ)
    → i < length bs
    → AllStale w u bs
    → leb_ℤ (since u.rated (at u.recorded)) (pos (w.total_buckets * w.bucket_size)) ≡ true
    → totals
        (w.total_buckets * w.bucket_size)
        u.rated
        (modify bs i (bump w.bucket_size true u.recorded))
      ≡ (1, 0)
unfolding totals bump
totals_probe w u [] i h stale fresh = elim h [ ]
totals_probe w u (b ∷ bs) zero h stale fresh =
    let old : All (λ b. in_window (w.total_buckets * w.bucket_size) u.rated b ≡ false) bs =
      AllStale-out w u bs stale.1 in
    rw (stale.0.1, fresh, totals_stale (w.total_buckets * w.bucket_size) u.rated bs old)
totals_probe w u (b ∷ bs) (suc i) h stale fresh =
    rw (stale.0.0, totals_probe w u bs i (omega arith) stale.1 fresh)

module _ (fl : Float64) where
  open fl use {F, of_int, div, lt}

  succeed_closes :
      (config : CircuitBreakerConfig F) (w : SlidingWindow) (u : Readings)
      → IsValid w
      → w.state ≡ state_half_open
      → AllStale w u w.buckets
      → leb_ℤ (since u.rated (at u.recorded)) (pos (w.total_buckets * w.bucket_size)) ≡ true
      → lt (div (of_int (pos 0)) (of_int (pos 1))) config.error_threshold ≡ true
      → (succeed fl config u w).state ≡ state_closed
  unfolding succeed record_result calculate_error_rate
  succeed_closes config w u v s stale fresh low =
      rw (totals_probe w u w.buckets _ (bucket_index-lt w u.recorded v) stale fresh) (ground arith)

  -- Once an open breaker's timeout has passed, and every failure it counted has left its window, one
  -- admitted request that succeeds closes it: the request is let in, and the success brings the
  -- breaker back to the closed state. It needs a threshold above the rate 0 / 1.
  pub probe-recovers :
      (cb : CircuitBreaker F) (key : String) (w : SlidingWindow) (t u : Readings)
      → lookup key cb.windows ≡ some w
      → IsValid w
      → w.state ≡ state_open
      → ltb_ℤ cb.config.half_open_timeout (since t.rated w.last_state_change) ≡ true
      → AllStale w u w.buckets
      → leb_ℤ (since u.rated (at u.recorded)) (pos (w.total_buckets * w.bucket_size)) ≡ true
      → lt (div (of_int (pos 0)) (of_int (pos 1))) cb.config.error_threshold ≡ true
      → ((allow_request fl cb key t).1 ≡ true)
        × (get_state fl (run fl cb ((key, allows t) ∷ (key, succeeds u) ∷ [])) key ≡ state_closed)
  unfolding admit run
  probe-recovers cb key w t u e v s late stale fresh low =
      let probing = record w {
        state = state_half_open;
        last_state_change = at t.changed;
        half_open_count = 0;
      } in
      let probed : (admit fl cb.config t w.state w) ≡ (probing, true) = ground arith in
      (
        allow_request-answer fl cb key t
            ∙ ap (answer fl cb.config t) e
            ∙ ap (λ (r : SlidingWindow × Bool). r.1) probed,
        get_state-state_of fl _ key
            ∙ simp (lookup-step, config-step, eq_refl, e, probed)
                (succeed_closes cb.config probing u
                  (record { sized = v.sized; nonempty = v.nonempty; seconds = v.seconds }) refl
                  stale fresh low),
      )
