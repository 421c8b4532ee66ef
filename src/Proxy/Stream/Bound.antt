-- ===== src/Proxy/Stream/Bound.antt =====
-- How long a schedule of the stream's goroutines can be: a weight that every step lowers.
use llmapi_gate_way.Common.Result.{Result}
use llmapi_gate_way.Proxy.Connections.{ConnectionManager}
use llmapi_gate_way.Proxy.Stream.{
  StreamChunk, other_line, end_mark, chunk_data, event_of, forwarded,
}
use llmapi_gate_way.Proxy.Stream.Machine.{
  UpstreamEnd, Reader, scanning, writing, ended, Copier, reading, delivering, finished, Caller,
  waiting, draining, returned, State, state, drop_bytes, buffer_rest, Step, Run, start,
}
use llmapi_gate_way.Common.{
  ℕ, zero, suc, ◌+◌, ◌*◌, ◌≤◌, ◌<◌, String, List, [], ◌∷◌, arith, if◌then◌else◌,
}

abbrev pub size : String → ℕ
size String.[] = 0
size (String.◌∷◌ c s) = suc (size s)

unfoldable pub lines_weight : List String → ℕ
lines_weight [] = 0
lines_weight (line ∷ rest) = 2 * size (forwarded (event_of line)) + 2 + lines_weight rest

abbrev reader_weight : Reader → ℕ
reader_weight (scanning lines) = 1 + lines_weight lines
reader_weight (writing t event rest) = 2 * size t + 2 + lines_weight rest
reader_weight ended = 0

abbrev copier_weight : Copier → ℕ
copier_weight reading = 1
copier_weight (delivering piece) = 2
copier_weight (finished e) = 0

abbrev caller_weight : Caller → ℕ
caller_weight waiting = 2
caller_weight draining = 1
caller_weight (returned result e) = 0

abbrev weight : State → ℕ
weight (state r c m h) =
    reader_weight r + copier_weight c + caller_weight m + (if h.cancelled then 0 else 1)

drop_bytes-size : (n : ℕ) (s : String) → size (drop_bytes n s) ≤ size s
unfolding drop_bytes
drop_bytes-size zero s = omega arith
drop_bytes-size (suc n) String.[] = omega arith
drop_bytes-size (suc n) (String.◌∷◌ c s) = omega (arith, drop_bytes-size n s)

module _ (unmarshal : String → Result String StreamChunk) (session_id body : String)
    {upstream : UpstreamEnd} where
  Step-weight : {s t : State} → Step unmarshal session_id body upstream s t → weight t < weight s
  unfolding lines_weight
  Step-weight (Step.takes h) = omega arith
  Step-weight (Step.stops h) = omega arith
  Step-weight (Step.scan_ends e) = omega arith
  Step-weight (Step.scan_breaks h) = omega arith
  Step-weight (Step.resumes {event = other_line line} now) = omega arith
  Step-weight (Step.resumes {event = end_mark} now) = omega arith
  Step-weight (Step.resumes {event = chunk_data payload} now) = omega arith
  Step-weight (Step.write_fails h) = omega arith
  Step-weight (Step.reads {t = t} h) = omega (arith, drop_bytes-size buffer_rest t)
  Step-weight (Step.read_fails h) = omega arith
  Step-weight Step.delivers = omega arith
  Step-weight (Step.client_fails e) = omega arith
  Step-weight (Step.interrupts h) = omega arith
  Step-weight Step.copy_ends = omega arith
  Step-weight Step.drains = omega arith
  Step-weight (Step.cancels {h = h} open_yet) = rw open_yet (omega arith)

  Run-weight :
      {n : ℕ} {s t : State} → Run unmarshal session_id body upstream n s t → n + weight t ≤ weight s
  Run-weight Run.stay = omega arith
  Run-weight (Run.then run step) = omega (arith, Run-weight run, Step-weight step)

  -- No schedule of `ProxyStream` is longer than twice the bytes of what its lines are forwarded as, two
  -- steps for each line, and five more: whatever the upstream, the client and the order do, it ends.
  pub Run-length :
      {n : ℕ} {t : State} (now : ℕ) (pool : ConnectionManager) (lines : List String)
      → Run unmarshal session_id body upstream n (start session_id body now pool lines) t
      → n ≤ 5 + lines_weight lines
  unfolding start
  Run-length now pool lines run = omega (arith, Run-weight run)
