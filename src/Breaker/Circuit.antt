-- ===== src/Breaker/Circuit.antt =====
-- internal/breaker/circuit.go and types.go: the circuit breaker with its sliding window.
-- A method takes a `Readings` with the clock value of each `time.Now()` it makes, and returns the
-- new breaker; `sync.Map` is an association list. Counters are `int64` and do not wrap.
pub mod States
pub mod Window
pub mod HalfOpen
pub mod Threshold
mod Tests
use llmapi_gate_way.Common.{
  ℕ, suc, ◌+◌, ◌*◌, ◌/◌, ◌%◌, String, Bool, true, false, ◌&&◌, Option, none, some, List, [], ◌∷◌,
  ltb, eqb, if◌then◌else◌, modify, replicate,
}
use llmapi_gate_way.Common.Int.{ℤ, pos, negsuc, ltb_ℤ, leb_ℤ}
use llmapi_gate_way.Common.Time.{Time, zero_time, at, second, since, unix}
use llmapi_gate_way.Common.Float.{Float64}
use llmapi_gate_way.Common.Assoc.{Assoc, lookup, insert}

pub data CircuitState : Type 0 where
  state_closed state_open state_half_open : CircuitState

pub record CircuitBreakerConfig (F : Type 0) : Type 0 where
  pub window_size : ℤ
  pub error_threshold : F
  pub half_open_timeout : ℤ
  pub max_requests : ℤ

pub record Bucket : Type 0 where
  pub timestamp : Time
  pub success : ℕ
  pub failure : ℕ

pub record SlidingWindow : Type 0 where
  pub buckets : List Bucket
  pub bucket_size : ℕ
  pub total_buckets : ℕ
  pub state : CircuitState
  pub last_state_change : Time
  pub half_open_count : ℕ

pub record CircuitBreaker (F : Type 0) : Type 0 where
  pub windows : Assoc SlidingWindow
  pub config : CircuitBreakerConfig F

-- The clock values that one call reads: in `newWindow`, in `record`, in `time.Since` or
-- `calculateErrorRate`, and for `lastStateChange`.
pub record Readings : Type 0 where
  pub created : ℕ
  pub recorded : ℕ
  pub rated : ℕ
  pub changed : ℕ

unfoldable pub new_circuit_breaker : {F : Type 0} → CircuitBreakerConfig F → CircuitBreaker F
new_circuit_breaker config = record { windows = []; config = config }

abbrev pub empty_bucket : Bucket
empty_bucket = record { timestamp = zero_time; success = 0; failure = 0 }

-- `int(cb.config.WindowSize.Seconds())`, and 1 where that is below 1.
unfoldable pub bucket_total : ℤ → ℕ
bucket_total (pos n) = let whole = n / second in if ltb whole 1 then 1 else whole
bucket_total (negsuc n) = 1

unfoldable pub new_window : {F : Type 0} → CircuitBreakerConfig F → ℕ → SlidingWindow
new_window config now = record {
  buckets = replicate (bucket_total config.window_size) empty_bucket;
  bucket_size = second;
  total_buckets = bucket_total config.window_size;
  state = state_closed;
  last_state_change = at now;
  half_open_count = 0;
}

abbrev pub is_closed : CircuitState → Bool
is_closed state_closed = true
is_closed _ = false

abbrev pub is_half_open : CircuitState → Bool
is_half_open state_half_open = true
is_half_open _ = false

-- The index of the bucket for a reading.
unfoldable pub bucket_index : SlidingWindow → ℕ → ℕ
bucket_index w now = (unix now / (w.bucket_size / second)) % w.total_buckets

-- The update of the bucket in `record`: reset it if it is older than `bucketSize`, then count.
unfoldable pub bump : ℕ → Bool → ℕ → Bucket → Bucket
bump size ok now b =
    let fresh =
      if ltb_ℤ (pos size) (since now b.timestamp)
      then record { timestamp = at now; success = 0; failure = 0 }
      else b in
    if ok
    then record fresh { success = fresh.success + 1 }
    else record fresh { failure = fresh.failure + 1 }

-- `record`. An index out of range, a panic in Go, does not occur: see `Window`.
unfoldable pub record_result : SlidingWindow → Bool → ℕ → SlidingWindow
record_result w ok now = record w {
  buckets = modify w.buckets (bucket_index w now) (bump w.bucket_size ok now);
}

-- The test of the loop in `calculateErrorRate`.
abbrev pub in_window : ℕ → ℕ → Bucket → Bool
in_window span now b = leb_ℤ (since now b.timestamp) (pos span)

-- `totalSuccess` and `totalFailure`.
unfoldable pub totals : ℕ → ℕ → List Bucket → ℕ × ℕ
totals span now [] = (0, 0)
totals span now (b ∷ bs) =
    let (s, f) = totals span now bs in
    if in_window span now b then (b.success + s, b.failure + f) else (s, f)

module _ (fl : Float64) where
  open fl use {F, of_int, div, lt}

  unfoldable pub calculate_error_rate : SlidingWindow → ℕ → F
  calculate_error_rate w now =
      let (s, f) = totals (w.total_buckets * w.bucket_size) now w.buckets in
      if eqb (s + f) 0 then of_int (pos 0) else div (of_int (pos f)) (of_int (pos (s + f)))

  -- `windows.LoadOrStore(key, cb.newWindow())`: the window that the call goes on with.
  unfoldable pub load_or_store : CircuitBreaker F → String → ℕ → SlidingWindow
  load_or_store cb key now = elim (lookup key cb.windows) [
    | none ↦ new_window cb.config now
    | some w ↦ w
  ]

  -- The window is shared by pointer: what a method changes is what the map holds.
  unfoldable pub store : CircuitBreaker F → String → SlidingWindow → CircuitBreaker F
  store cb key w = record cb { windows = insert key w cb.windows }

  -- The `switch` of `AllowRequest`.
  unfoldable pub admit :
      CircuitBreakerConfig F → Readings → CircuitState → SlidingWindow → SlidingWindow × Bool
  admit config t state_closed w = (w, true)
  admit config t state_open w =
      if ltb_ℤ config.half_open_timeout (since t.rated w.last_state_change)
      then (
        record w { state = state_half_open; last_state_change = at t.changed; half_open_count = 0 },
        true,
      )
      else (w, false)
  admit config t state_half_open w =
      if ltb_ℤ (pos w.half_open_count) config.max_requests
      then (record w { half_open_count = w.half_open_count + 1 }, true)
      else (w, false)

  unfoldable pub allow_request : CircuitBreaker F → String → Readings → CircuitBreaker F × Bool
  allow_request cb key t =
      let w = load_or_store cb key t.created in
      let (w', allowed) = admit cb.config t w.state w in (store cb key w', allowed)

  -- What `RecordSuccess` does to the window.
  unfoldable pub succeed : CircuitBreakerConfig F → Readings → SlidingWindow → SlidingWindow
  succeed config t w =
      let w' = record_result w true t.recorded in
      if is_half_open w'.state && lt (calculate_error_rate w' t.rated) config.error_threshold
      then record w' { state = state_closed; last_state_change = at t.changed }
      else w'

  unfoldable pub record_success : CircuitBreaker F → String → Readings → CircuitBreaker F
  record_success cb key t = elim (lookup key cb.windows) [
    | none ↦ cb
    | some w ↦ store cb key (succeed cb.config t w)
  ]

  -- What `RecordFailure` does to the window.
  unfoldable pub fail : CircuitBreakerConfig F → Readings → SlidingWindow → SlidingWindow
  fail config t w =
      let w' = record_result w false t.recorded in
      if lt config.error_threshold (calculate_error_rate w' t.rated) && is_closed w'.state
      then record w' { state = state_open; last_state_change = at t.changed }
      else w'

  unfoldable pub record_failure : CircuitBreaker F → String → Readings → CircuitBreaker F
  record_failure cb key t =
      let w = load_or_store cb key t.created in store cb key (fail cb.config t w)

  unfoldable pub get_state : CircuitBreaker F → String → CircuitState
  get_state cb key = elim (lookup key cb.windows) [ none ↦ state_closed | some w ↦ w.state ]

  -- One call on the breaker.
  pub data Call : Type 0 where
    allows : Readings → Call
    succeeds : Readings → Call
    fails : Readings → Call

  unfoldable pub step : CircuitBreaker F → String → Call → CircuitBreaker F
  step cb key (allows t) = (allow_request cb key t).0
  step cb key (succeeds t) = record_success cb key t
  step cb key (fails t) = record_failure cb key t

  unfoldable pub run : CircuitBreaker F → List (String × Call) → CircuitBreaker F
  run cb [] = cb
  run cb ((key, c) ∷ cs) = run (step cb key c) cs
