-- ===== src/Breaker/Circuit/Window.antt =====
-- The sliding window of internal/breaker/circuit.go: the index that `record` computes always lies
-- in the bucket array, whatever calls were made.
use native.Mathlib.Nat.{mod-lt}
use llmapi_gate_way.Common.{
  ℕ, ◌<◌, String, ◌≡◌, refl, ◌∙◌, Bool, true, false, Option, none, some, List, arith, length,
  length-modify, length-replicate,
}
use llmapi_gate_way.Common.Int.{ℤ, pos, negsuc}
use llmapi_gate_way.Common.Assoc.{lookup}
use llmapi_gate_way.Common.Time.{second}
use llmapi_gate_way.Common.Float.{Float64}
use llmapi_gate_way.Breaker.Circuit.{
  CircuitState, state_closed, state_open, state_half_open, CircuitBreakerConfig, SlidingWindow,
  Readings, new_circuit_breaker, empty_bucket, bucket_total, new_window, bucket_index,
  record_result, admit, succeed, fail, Call, allows, succeeds, fails, run,
}
use llmapi_gate_way.Breaker.Circuit.States.{entry, after, every, run_inv}

-- The array has as many buckets as the window says, at least one, of one second each.
pub record IsValid (w : SlidingWindow) : Type 0 where
  pub sized : length w.buckets ≡ w.total_buckets
  pub nonempty : 0 < w.total_buckets
  pub seconds : w.bucket_size ≡ second

-- So the index of any reading is one of the array's.
pub bucket_index-lt :
    (w : SlidingWindow) (now : ℕ) → IsValid w → bucket_index w now < length w.buckets
unfolding bucket_index
bucket_index-lt w now v = rw v.sized (mod-lt _ v.nonempty)

bucket_total-pos : (size : ℤ) → 0 < bucket_total size
unfolding bucket_total
bucket_total-pos (pos n) = ground arith
bucket_total-pos (negsuc n) = omega arith

new_window-IsValid :
    {F : Type 0} (config : CircuitBreakerConfig F) (now : ℕ) → IsValid (new_window config now)
unfolding new_window
new_window-IsValid config now = record {
  sized = length-replicate (bucket_total config.window_size) empty_bucket;
  nonempty = bucket_total-pos config.window_size;
  seconds = refl;
}

record_result-IsValid :
    (w : SlidingWindow) (success : Bool) (now : ℕ)
    → IsValid w
    → IsValid (record_result w success now)
unfolding record_result
record_result-IsValid w success now v = record {
  sized = length-modify w.buckets _ _ ∙ v.sized;
  nonempty = v.nonempty;
  seconds = v.seconds;
}

module _ (fl : Float64) where
  open fl use {F}

  abbrev Holds : Option SlidingWindow → Type 0
  Holds none = Unit {0}
  Holds (some w) = IsValid w

  admit-IsValid :
      (config : CircuitBreakerConfig F) (t : Readings) (w : SlidingWindow) (s : CircuitState)
      → IsValid w
      → IsValid (admit fl config t s w).0
  unfolding admit
  admit-IsValid config t w state_closed v = v
  admit-IsValid config t w state_open v = ground arith
  admit-IsValid config t w state_half_open v = ground arith

  succeed-IsValid :
      (config : CircuitBreakerConfig F) (t : Readings) (w : SlidingWindow)
      → IsValid w
      → IsValid (succeed fl config t w)
  unfolding succeed
  succeed-IsValid config t w v = ground (arith, record_result-IsValid w true t.recorded v)

  fail-IsValid :
      (config : CircuitBreakerConfig F) (t : Readings) (w : SlidingWindow)
      → IsValid w
      → IsValid (fail fl config t w)
  unfolding fail
  fail-IsValid config t w v = ground (arith, record_result-IsValid w false t.recorded v)

  entry-IsValid :
      (config : CircuitBreakerConfig F) (now : ℕ) (o : Option SlidingWindow)
      → Holds o
      → IsValid (entry fl config now o)
  entry-IsValid config now none h = new_window-IsValid config now
  entry-IsValid config now (some w) h = h

  after-Holds :
      (config : CircuitBreakerConfig F) (o : Option SlidingWindow) (c : Call fl)
      → Holds o
      → Holds (after fl config o c)
  after-Holds config o (allows t) h =
      admit-IsValid config t _ _ (entry-IsValid config t.created o h)
  after-Holds config none (succeeds t) h = tt
  after-Holds config (some w) (succeeds t) h = succeed-IsValid config t w h
  after-Holds config o (fails t) h = fail-IsValid config t _ (entry-IsValid config t.created o h)

  run-IsValid :
      (config : CircuitBreakerConfig F) (key : String) (cs : List (String × Call fl))
      → Holds (lookup key (run fl (new_circuit_breaker config) cs).windows)
  unfolding new_circuit_breaker lookup
  run-IsValid config key cs =
      run_inv fl config Holds (λ _. Unit {0}) key (λ o c _. after-Holds config o c) cs _ refl
        (every fl key cs) tt

  -- After any calls on a new breaker, with any clock values, the bucket index that a further record
  -- computes lies within the window's bucket array: `record` never indexes out of range. The array
  -- keeps the length that `newWindow` gave it.
  pub bucket_index-lt-length :
      (config : CircuitBreakerConfig F) (key : String) (cs : List (String × Call fl))
      (w : SlidingWindow) (now : ℕ)
      → lookup key (run fl (new_circuit_breaker config) cs).windows ≡ some w
      → (bucket_index w now < length w.buckets) × (length w.buckets ≡ w.total_buckets)
  bucket_index-lt-length config key cs w now e =
      let v : IsValid w = rw e at (run-IsValid config key cs) in (bucket_index-lt w now v, v.sized)
