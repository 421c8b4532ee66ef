-- ===== src/Breaker/Circuit/HalfOpen.antt =====
-- The open and half-open states of internal/breaker/circuit.go: how long the breaker refuses, how
-- many probes it lets through, and when it can leave the half-open state.
use llmapi_gate_way.Common.{
  ℕ, suc, ◌+◌, ◌-◌, ◌≤◌, min, String, ◌≡◌, refl, ap, ◌∙◌, Bool, true, false, Option, none, some,
  List, [], ◌∷◌, arith, ◌==◌, length, All,
}
use llmapi_gate_way.Common.Int.{ℤ, pos, ltb_ℤ}
use llmapi_gate_way.Common.Assoc.{lookup, lookup-insert_self}
use llmapi_gate_way.Common.Time.{Time, at, since}
use llmapi_gate_way.Common.Float.{Float64}
use llmapi_gate_way.Breaker.Circuit.{
  CircuitState, state_open, state_half_open, CircuitBreakerConfig, CircuitBreaker, SlidingWindow,
  Readings, record_result, load_or_store, store, admit, allow_request, succeed, fail, get_state,
  Call, allows, succeeds, fails, step, run,
}
use llmapi_gate_way.Breaker.Circuit.States.{
  after, state_of, run_inv, get_state-state_of, config-run, answer, allow_request-answer,
}

-- `AllowRequest` called on one key once for each reading: the breaker, and how many were let in.
abbrev pub count : Bool → ℕ → ℕ
count true n = suc n
count false n = n

module _ (fl : Float64) where
  open fl use {F}

  abbrev pub allow_all : CircuitBreaker F → String → List Readings → CircuitBreaker F × ℕ
  allow_all cb key [] = (cb, 0)
  allow_all cb key (t ∷ ts) =
      let (cb', ok) = allow_request fl cb key t in
      let (cb'', n) = allow_all cb' key ts in (cb'', count ok n)

  -- The window's part of `allow_all`.
  admit_all : CircuitBreakerConfig F → SlidingWindow → List Readings → ℕ
  admit_all config w [] = 0
  admit_all config w (t ∷ ts) =
      count (admit fl config t w.state w).1 (admit_all config (admit fl config t w.state w).0 ts)

  allow_all-admit_all :
      (cb : CircuitBreaker F) (key : String) (w : SlidingWindow) (ts : List Readings)
      → lookup key cb.windows ≡ some w
      → (allow_all cb key ts).1 ≡ admit_all cb.config w ts
  unfolding admit_all allow_request load_or_store store
  allow_all-admit_all cb key w [] e = refl
  allow_all-admit_all cb key w (t ∷ ts) e =
      let next = (admit fl cb.config t w.state w).0 in
      rw (e, load_or_store)
        (ap (count (admit fl cb.config t w.state w).1) (
          allow_all-admit_all (store fl cb key next) key next ts
            (lookup-insert_self key next cb.windows)))

  -- Half open with `c` of `m` probes used, the next requests are let in until `m` is reached.
  admit_all-half_open :
      (config : CircuitBreakerConfig F) (m : ℕ) (w : SlidingWindow) (ts : List Readings)
      → config.max_requests ≡ pos m
      → w.state ≡ state_half_open
      → w.half_open_count ≤ m
      → admit_all config w ts ≡ min (length ts) (m - w.half_open_count)
  unfolding admit_all admit
  admit_all-half_open config m w [] e s h = omega arith
  admit_all-half_open config m w (t ∷ ts) e s h = ground (
    arith,
    admit_all-half_open config m w ts,
    admit_all-half_open config m (record w { half_open_count = w.half_open_count + 1 }) ts,
  )

  -- When an open breaker's timeout has passed, it lets in one request and then `MaxRequests` more,
  -- if no result is recorded in between: of the n + 1 next requests on the key exactly
  -- 1 + min n MaxRequests are let in.
  pub allow_all-probes :
      (cb : CircuitBreaker F) (key : String) (w : SlidingWindow) (m : ℕ) (t : Readings)
      (ts : List Readings)
      → lookup key cb.windows ≡ some w
      → w.state ≡ state_open
      → ltb_ℤ cb.config.half_open_timeout (since t.rated w.last_state_change) ≡ true
      → cb.config.max_requests ≡ pos m
      → (allow_all cb key (t ∷ ts)).1 ≡ 1 + min (length ts) m
  unfolding admit_all admit
  allow_all-probes cb key w m t ts e s late bound =
      let probing = record w {
        state = state_half_open;
        last_state_change = at t.changed;
        half_open_count = 0;
      } in
      rw (allow_all-admit_all cb key w (t ∷ ts) e, s, late)
        (omega (arith, admit_all-half_open cb.config m probing ts bound refl (omega arith)))

  -- From what holds of a key's window after a run, to the key's state and to the next answer.
  refusing {ℓ} :
      (cb : CircuitBreaker F) (key : String) (cs : List (String × Call fl)) (t : Readings)
      {s : CircuitState} (P : Option SlidingWindow → Type ℓ)
      → ((o : Option SlidingWindow) → P o → (state_of fl o ≡ s) × (answer fl cb.config t o ≡ false))
      → P (lookup key (run fl cb cs).windows)
      → (get_state fl (run fl cb cs) key ≡ s) × ((allow_request fl (run fl cb cs) key t).1 ≡ false)
  refusing cb key cs t P refuse h = (
    get_state-state_of fl (run fl cb cs) key ∙ (refuse _ h).0,
    allow_request-answer fl (run fl cb cs) key t ∙ rw (config-run fl cs cb) (refuse _ h).1,
  )

  -- No success is reported by the call.
  abbrev pub IsQuiet : Call fl → Type 0
  IsQuiet (allows t) = Unit {0}
  IsQuiet (succeeds t) = ⊥
  IsQuiet (fails t) = Unit {0}

  -- Half open, with every probe used.
  abbrev IsSpent : CircuitBreakerConfig F → Option SlidingWindow → Type 0
  IsSpent config none = ⊥
  IsSpent config (some w) =
      (w.state ≡ state_half_open) × (ltb_ℤ (pos w.half_open_count) config.max_requests ≡ false)

  after-IsSpent :
      (config : CircuitBreakerConfig F) (o : Option SlidingWindow) (c : Call fl)
      → IsQuiet c
      → IsSpent config o
      → IsSpent config (after fl config o c)
  unfolding admit fail record_result
  after-IsSpent config none c q h = absurd h
  after-IsSpent config (some w) (allows t) q (s, spent) = ground arith
  after-IsSpent config (some w) (succeeds t) q h = absurd q
  after-IsSpent config (some w) (fails t) q (s, spent) = ground arith

  spent_refuses :
      (config : CircuitBreakerConfig F) (t : Readings) (o : Option SlidingWindow)
      → IsSpent config o
      → (state_of fl o ≡ state_half_open) × (answer fl config t o ≡ false)
  unfolding admit
  spent_refuses config t none h = absurd h
  spent_refuses config t (some w) h = ground arith

  -- A breaker that is half open and has used up its probes refuses every request on the key, and
  -- stays half open, until a success is reported for the key: no time that passes, no failure that
  -- is recorded and no other call changes that.
  pub half_open-stuck :
      (cb : CircuitBreaker F) (key : String) (w : SlidingWindow) (cs : List (String × Call fl))
      (t : Readings)
      → lookup key cb.windows ≡ some w
      → w.state ≡ state_half_open
      → ltb_ℤ (pos w.half_open_count) cb.config.max_requests ≡ false
      → All (λ kc. (kc.0 == key) ≡ true → IsQuiet kc.1) cs
      → (get_state fl (run fl cb cs) key ≡ state_half_open)
        × ((allow_request fl (run fl cb cs) key t).1 ≡ false)
  half_open-stuck cb key w cs t e s spent quiet =
      let kept : IsSpent cb.config (lookup key (run fl cb cs).windows) =
        run_inv fl cb.config (IsSpent cb.config) IsQuiet key (after-IsSpent cb.config) cs cb refl
          quiet (rw e (s, spent)) in
      refusing cb key cs t _ (λ o h. spent_refuses cb.config t o h) kept

  -- Open since the given time.
  abbrev pub IsOpenSince : Time → Option SlidingWindow → Type 0
  IsOpenSince since_time none = ⊥
  IsOpenSince since_time (some w) = (w.state ≡ state_open) × (w.last_state_change ≡ since_time)

  -- A request that comes before the timeout.
  abbrev pub IsEarly : ℤ → Time → Call fl → Type 0
  IsEarly timeout opened (allows t) = ltb_ℤ timeout (since t.rated opened) ≡ false
  IsEarly timeout opened (succeeds t) = Unit {0}
  IsEarly timeout opened (fails t) = Unit {0}

  after-IsOpenSince :
      (config : CircuitBreakerConfig F) (opened : Time) (o : Option SlidingWindow) (c : Call fl)
      → IsEarly config.half_open_timeout opened c
      → IsOpenSince opened o
      → IsOpenSince opened (after fl config o c)
  unfolding admit fail succeed record_result
  after-IsOpenSince config opened none c q h = absurd h
  after-IsOpenSince config opened (some w) (allows t) q (s, e) = ground arith
  after-IsOpenSince config opened (some w) (succeeds t) q (s, e) = ground arith
  after-IsOpenSince config opened (some w) (fails t) q (s, e) = ground arith

  open_refuses :
      (config : CircuitBreakerConfig F) (opened : Time) (t : Readings) (o : Option SlidingWindow)
      → IsEarly config.half_open_timeout opened (allows t)
      → IsOpenSince opened o
      → (state_of fl o ≡ state_open) × (answer fl config t o ≡ false)
  unfolding admit
  open_refuses config opened t none q h = absurd h
  open_refuses config opened t (some w) q h = ground arith

  -- An open breaker refuses every request on its key that comes before the timeout has passed since
  -- it opened, and stays open, whatever other calls come in between: successes and failures that
  -- are reported late neither close it nor put off its timeout.
  pub open-refuses :
      (cb : CircuitBreaker F) (key : String) (w : SlidingWindow) (cs : List (String × Call fl))
      (t : Readings)
      → lookup key cb.windows ≡ some w
      → w.state ≡ state_open
      → All
          (λ kc.
            (kc.0 == key) ≡ true → IsEarly cb.config.half_open_timeout w.last_state_change kc.1)
          cs
      → IsEarly cb.config.half_open_timeout w.last_state_change (allows t)
      → (get_state fl (run fl cb cs) key ≡ state_open)
        × ((allow_request fl (run fl cb cs) key t).1 ≡ false)
  open-refuses cb key w cs t e s early now =
      let kept : IsOpenSince w.last_state_change (lookup key (run fl cb cs).windows) =
        run_inv fl cb.config (IsOpenSince w.last_state_change)
          (IsEarly cb.config.half_open_timeout w.last_state_change) key
          (after-IsOpenSince cb.config w.last_state_change) cs cb refl early (rw e (s, refl)) in
      refusing cb key cs t _ (λ o h. open_refuses cb.config w.last_state_change t o now h) kept

  -- One call, on any key, leaves an open window open before its timeout.
  pub step-IsOpenSince :
      (cb : CircuitBreaker F) (key other : String) (opened : Time) (c : Call fl)
      → IsEarly cb.config.half_open_timeout opened c
      → IsOpenSince opened (lookup key cb.windows)
      → IsOpenSince opened (lookup key (step fl cb other c).windows)
  unfolding run
  step-IsOpenSince cb key other opened c early held =
      run_inv fl cb.config (IsOpenSince opened) (IsEarly cb.config.half_open_timeout opened) key
        (after-IsOpenSince cb.config opened) ((other, c) ∷ []) cb refl ((λ _. early), tt) held

  pub IsOpenSince-refuses :
      (cb : CircuitBreaker F) (key : String) (opened : Time) (t : Readings)
      → IsEarly cb.config.half_open_timeout opened (allows t)
      → IsOpenSince opened (lookup key cb.windows)
      → (allow_request fl cb key t).1 ≡ false
  IsOpenSince-refuses cb key opened t early held =
      allow_request-answer fl cb key t
      ∙ (open_refuses cb.config opened t (lookup key cb.windows) early held).1
