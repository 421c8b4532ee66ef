-- ===== src/Breaker/Circuit/Tests.antt =====
-- Runs of the breaker, and the properties of the other files at concrete inputs. Thresholds here are
-- fixed-point numbers with six decimals.
use llmapi_gate_way.Common.{
  ℕ, ◌<◌, String, ◌≡◌, refl, ◌≢◌, true, false, some, [], ◌∷◌, arith, length,
}
use llmapi_gate_way.Common.Int.{pos}
use llmapi_gate_way.Common.Assoc.{lookup, insert}
use llmapi_gate_way.Common.Time.{zero_time, at, second}
use llmapi_gate_way.Breaker.Circuit.{
  state_closed, state_open, state_half_open, CircuitBreakerConfig, CircuitBreaker, SlidingWindow,
  Readings, new_circuit_breaker, bucket_total, new_window, bucket_index, bump, record_result,
  totals, calculate_error_rate, load_or_store, store, allow_request, fail, record_failure,
  get_state, allows, succeeds, fails, step, run,
}
use llmapi_gate_way.Breaker.Circuit.States.{Move, get_state-step}
use llmapi_gate_way.Common.Fixed.{fixed}
use llmapi_gate_way.Breaker.Circuit.Window.{bucket_index-lt-length}
use llmapi_gate_way.Breaker.Circuit.HalfOpen.{
  allow_all, allow_all-probes, half_open-stuck, open-refuses,
}
use llmapi_gate_way.Breaker.Circuit.Threshold.{probe-recovers}

-- A window of two seconds, a threshold of 0.5, a timeout of five seconds, two probes.
abbrev config : CircuitBreakerConfig ℕ
config = record {
  window_size = pos 2000000000;
  error_threshold = 500000;
  half_open_timeout = pos 5000000000;
  max_requests = pos 2;
}

abbrev reading : ℕ → Readings
reading n = record { created = n; recorded = n; rated = n; changed = n }

abbrev second_7 : Readings
second_7 = reading 7000000000

abbrev second_20 : Readings
second_20 = reading 20000000000

abbrev opened : CircuitBreaker ℕ
opened = record_failure fixed (new_circuit_breaker config) "k" second_7

abbrev open_window : SlidingWindow
open_window = record {
  buckets =
      record { timestamp = zero_time; success = 0; failure = 0 }
      ∷ record { timestamp = at 7000000000; success = 0; failure = 1 }
      ∷ [];
  bucket_size = second;
  total_buckets = 2;
  state = state_open;
  last_state_change = at 7000000000;
  half_open_count = 0;
}

opened_window : lookup "k" opened.windows ≡ some open_window
unfolding record_failure load_or_store store fail record_result calculate_error_rate totals
    bucket_index bump bucket_total new_window new_circuit_breaker lookup insert
opened_window = refl

get_state-step_example :
    Move fixed
      (fails second_7)
      (get_state fixed (new_circuit_breaker config) "k")
      (get_state fixed (step fixed (new_circuit_breaker config) "k" (fails second_7)) "k")
    × (◌≢◌ {A = String} "k" "j"
        → get_state fixed (step fixed (new_circuit_breaker config) "k" (fails second_7)) "j"
          ≡ get_state fixed (new_circuit_breaker config) "j")
get_state-step_example = get_state-step fixed (new_circuit_breaker config) "k" "j" (fails second_7)

bucket_index-lt-length_example :
    (bucket_index open_window 9000000000 < length open_window.buckets)
    × (length open_window.buckets ≡ open_window.total_buckets)
unfolding step run
bucket_index-lt-length_example =
    bucket_index-lt-length fixed config "k" (("k", fails second_7) ∷ []) open_window 9000000000
      opened_window

allow_all-probes_example :
    (allow_all fixed opened "k" (second_20 ∷ second_20 ∷ second_20 ∷ second_20 ∷ [])).1 ≡ 3
unfolding record_failure store new_circuit_breaker
allow_all-probes_example =
    allow_all-probes fixed opened "k" open_window 2 second_20
      (second_20 ∷ second_20 ∷ second_20 ∷ []) opened_window refl refl refl

spent_window : SlidingWindow
spent_window = record open_window { state = state_half_open; half_open_count = 2 }

spent : CircuitBreaker ℕ
spent = record { windows = ("k", spent_window) ∷ []; config = config }

half_open-stuck_example :
    (get_state fixed (run fixed spent (("k", fails second_20) ∷ ("k", allows second_20) ∷ [])) "k"
      ≡ state_half_open)
    × ((allow_request fixed
          (run fixed spent (("k", fails second_20) ∷ ("k", allows second_20) ∷ []))
          "k"
          second_20).1
        ≡ false)
unfolding spent spent_window lookup
half_open-stuck_example =
    half_open-stuck fixed spent "k" spent_window
      (("k", fails second_20) ∷ ("k", allows second_20) ∷ []) second_20 refl refl refl
      ((λ _. tt), ((λ _. tt), tt))

open-refuses_example :
    (get_state fixed
        (run fixed opened (("k", succeeds second_20) ∷ ("k", allows second_7) ∷ []))
        "k"
      ≡ state_open)
    × ((allow_request fixed
          (run fixed opened (("k", succeeds second_20) ∷ ("k", allows second_7) ∷ []))
          "k"
          second_7).1
        ≡ false)
unfolding record_failure store new_circuit_breaker
open-refuses_example =
    open-refuses fixed opened "k" open_window
      (("k", succeeds second_20) ∷ ("k", allows second_7) ∷ []) second_7 opened_window refl
      ((λ _. tt), ((λ _. refl), tt)) refl

probe-recovers_example :
    ((allow_request fixed opened "k" second_20).1 ≡ true)
    × (get_state fixed
          (run fixed opened (("k", allows second_20) ∷ ("k", succeeds second_20) ∷ []))
          "k"
        ≡ state_closed)
unfolding record_failure store new_circuit_breaker
probe-recovers_example =
    probe-recovers fixed opened "k" open_window second_20 second_20 opened_window (omega arith) refl
      refl ((refl, refl), ((refl, refl), tt)) refl refl
