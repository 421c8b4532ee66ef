-- ===== src/Common/Time.antt =====
-- Go's `time.Time` and `time.Duration`. A clock reading is a number of nanoseconds since the Unix
-- epoch; a stored time is such a reading or the zero value of `time.Time` (1 January of year 1).
use Prim.Native.Nat.{ℕ, ◌/◌, min}
use llmapi_gate_way.Common.Int.{ℤ, pos, negsuc, sub_ℕ}

pub data Time : Type 0 where
  zero_time : Time
  at : ℕ → Time

abbrev pub second : ℕ
second = 1000000000

-- The largest `time.Duration`, 2^63 - 1 nanoseconds, a little over 292 years.
abbrev pub max_duration : ℕ
max_duration = 9223372036854775807

abbrev pub saturate : ℤ → ℤ
saturate (pos n) = pos (min n max_duration)
saturate (negsuc n) = negsuc (min n max_duration)

-- `now.Sub(t)`, which saturates: a reading after 1970 is more than 292 years after year 1.
abbrev pub since : ℕ → Time → ℤ
since now zero_time = pos max_duration
since now (at t) = saturate (sub_ℕ now t)

-- `now.Unix()`
abbrev pub unix : ℕ → ℕ
unix now = now / second
