-- ===== src/Breaker/Circuit/States.antt =====
-- The state machine of internal/breaker/circuit.go: which call may take which edge, that the
-- windows of different keys do not disturb each other, and the rule for invariants of one key.
use llmapi_gate_way.Common.{
  ℕ, String, ◌≡◌, ◌≢◌, ◌∙◌, refl, Bool, true, Option, some, none, List, [], ◌∷◌, arith, ◌==◌,
  eq_refl, eq_iff, eq_false_of_ne, Bool-cases, Option-cases, inl, inr, if◌then◌else◌, All,
}
use llmapi_gate_way.Common.Assoc.{lookup, lookup-insert}
use llmapi_gate_way.Common.Float.{Float64}
use llmapi_gate_way.Breaker.Circuit.{
  CircuitState, state_closed, state_open, state_half_open, CircuitBreaker, CircuitBreakerConfig,
  SlidingWindow, Readings, new_window, record_result, load_or_store, store, admit, allow_request,
  succeed, record_success, fail, record_failure, get_state, Call, allows, succeeds, fails, step,
  run,
}

module _ (fl : Float64) where
  open fl use {F}

  -- The edges of the diagram, each with the call that may take it.
  pub data Move : Call fl → CircuitState → CircuitState → Type 0 where
    stay : {c : Call fl} {s : CircuitState} → Move c s s
    trip : {t : Readings} → Move (fails t) state_closed state_open
    probe : {t : Readings} → Move (allows t) state_open state_half_open
    recover : {t : Readings} → Move (succeeds t) state_half_open state_closed

  -- The window that a call on a key finds, or makes.
  abbrev pub entry : CircuitBreakerConfig F → ℕ → Option SlidingWindow → SlidingWindow
  entry config now none = new_window config now
  entry config now (some w) = w

  -- What a call leaves in the map under its own key.
  abbrev pub after : CircuitBreakerConfig F → Option SlidingWindow → Call fl → Option SlidingWindow
  after config o (allows t) =
      let w = entry config t.created o in some (admit fl config t w.state w).0
  after config none (succeeds t) = none
  after config (some w) (succeeds t) = some (succeed fl config t w)
  after config o (fails t) = some (fail fl config t (entry config t.created o))

  abbrev pub state_of : Option SlidingWindow → CircuitState
  state_of none = state_closed
  state_of (some w) = w.state

  load_or_store-entry :
      (cb : CircuitBreaker F) (key : String) (now : ℕ)
      → load_or_store fl cb key now ≡ entry cb.config now (lookup key cb.windows)
  unfolding load_or_store
  load_or_store-entry cb key now = ground arith

  -- A call changes its own key's entry, as `after` says, and no other.
  pub lookup-step :
      (cb : CircuitBreaker F) (key other : String) (c : Call fl)
      → lookup other (step fl cb key c).windows ≡ (
          if key == other
          then after cb.config (lookup key cb.windows) c
          else lookup other cb.windows)
  unfolding step allow_request record_success record_failure store
  lookup-step cb key other (allows t) = simp (load_or_store-entry, lookup-insert)
  lookup-step cb key other (succeeds t) = elim (Option-cases (lookup key cb.windows)) [
    | inl e ↦ rw (e, record_success) (ground (arith, eq_iff key other))
    | inr (w, e) ↦ rw (e, record_success) (simp lookup-insert)
  ]
  lookup-step cb key other (fails t) = simp (load_or_store-entry, lookup-insert)

  pub config-step :
      (cb : CircuitBreaker F) (key : String) (c : Call fl) → (step fl cb key c).config ≡ cb.config
  unfolding step allow_request record_success record_failure store
  config-step cb key (allows t) = refl
  config-step cb key (succeeds t) = ground arith
  config-step cb key (fails t) = refl

  pub config-run :
      (cs : List (String × Call fl)) (cb : CircuitBreaker F) → (run fl cb cs).config ≡ cb.config
  unfolding run
  config-run [] cb = refl
  config-run ((k, c) ∷ cs) cb = config-run cs (step fl cb k c) ∙ config-step cb k c

  -- The answer of `AllowRequest` depends on the key's own window alone.
  abbrev pub answer : CircuitBreakerConfig F → Readings → Option SlidingWindow → Bool
  answer config t o = let w = entry config t.created o in (admit fl config t w.state w).1

  pub allow_request-answer :
      (cb : CircuitBreaker F) (key : String) (t : Readings)
      → (allow_request fl cb key t).1 ≡ answer cb.config t (lookup key cb.windows)
  unfolding allow_request
  allow_request-answer cb key t = simp load_or_store-entry

  -- What every call on a key keeps, a run over any keys keeps too; `Q` limits the calls on the key.
  pub run_inv {ℓ κ} :
      (config : CircuitBreakerConfig F) (P : Option SlidingWindow → Type ℓ) (Q : Call fl → Type κ)
      (key : String)
      → ((o : Option SlidingWindow) (c : Call fl) → Q c → P o → P (after config o c))
      → (cs : List (String × Call fl)) (cb : CircuitBreaker F) → cb.config ≡ config
      → All (λ kc. (kc.0 == key) ≡ true → Q kc.1) cs
      → P (lookup key cb.windows)
      → P (lookup key (run fl cb cs).windows)
  unfolding run
  run_inv config P Q key kept [] cb e q p = p
  run_inv config P Q key kept ((other, c) ∷ cs) cb e (q, qs) p =
      run_inv config P Q key kept cs (step fl cb other c) (config-step cb other c ∙ e) qs (
        rw (lookup-step cb other key c) (elim (Bool-cases (other == key)) [
          | inl same ↦ rw (same, e, (eq_iff other key).0 same) (kept _ c (q same) p)
          | inr differs ↦ rw differs p
        ]))

  pub every {κ} :
      (key : String) (cs : List (String × Call fl)) → All (λ kc. (kc.0 == key) ≡ true → Unit {κ}) cs
  every key [] = tt
  every key (c ∷ cs) = ((λ _. tt), every key cs)

  admit-Move :
      (config : CircuitBreakerConfig F) (t : Readings) (w : SlidingWindow) (s : CircuitState)
      → w.state ≡ s
      → Move (allows t) s (admit fl config t s w).0.state
  unfolding admit
  admit-Move config t w state_closed e = rw e stay
  admit-Move config t w state_open e = grind (arith, stay, probe)
  admit-Move config t w state_half_open e = grind (arith, stay)

  succeed-Move :
      (config : CircuitBreakerConfig F) (t : Readings) (w : SlidingWindow)
      → Move (succeeds t) w.state (succeed fl config t w).state
  unfolding succeed record_result
  succeed-Move config t w = grind (arith, stay, recover)

  fail-Move :
      (config : CircuitBreakerConfig F) (t : Readings) (w : SlidingWindow)
      → Move (fails t) w.state (fail fl config t w).state
  unfolding fail record_result
  fail-Move config t w = grind (arith, stay, trip)

  after-Move :
      (config : CircuitBreakerConfig F) (o : Option SlidingWindow) (c : Call fl)
      → Move c (state_of o) (state_of (after config o c))
  unfolding new_window
  after-Move config none (allows t) = admit-Move config t (new_window config t.created) _ refl
  after-Move config none (succeeds t) = stay
  after-Move config none (fails t) = fail-Move config t (new_window config t.created)
  after-Move config (some w) (allows t) = admit-Move config t w _ refl
  after-Move config (some w) (succeeds t) = succeed-Move config t w
  after-Move config (some w) (fails t) = fail-Move config t w

  pub get_state-state_of :
      (cb : CircuitBreaker F) (key : String)
      → get_state fl cb key ≡ state_of (lookup key cb.windows)
  unfolding get_state
  get_state-state_of cb key = ground arith

  -- A call on a key moves that key's breaker along an edge of the diagram that belongs to the call,
  -- or leaves its state: only a failure opens it, only an admission half-opens it, and only a
  -- success closes it. The state of any other key stays as it was.
  pub get_state-step :
      (cb : CircuitBreaker F) (key other : String) (c : Call fl)
      → Move c (get_state fl cb key) (get_state fl (step fl cb key c) key)
        × (key ≢ other → get_state fl (step fl cb key c) other ≡ get_state fl cb other)
  get_state-step cb key other c = (
    rw (get_state-state_of, get_state-state_of, lookup-step, eq_refl)
        (after-Move cb.config (lookup key cb.windows) c),
    λ differs. simp (get_state-state_of, lookup-step, eq_false_of_ne key other differs),
  )
