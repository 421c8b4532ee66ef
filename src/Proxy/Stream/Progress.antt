-- ===== src/Proxy/Stream/Progress.antt =====
-- Which step comes next in each reachable state of a stream: why its goroutines do not wait for each
-- other for ever.
use Prim.Native.Char.{Char}
use llmapi_gate_way.Common.Result.{Result}
use llmapi_gate_way.Proxy.Connections.{ConnectionManager}
use llmapi_gate_way.Proxy.Stream.{StreamChunk, Event, other_line, end_mark, chunk_data}
use llmapi_gate_way.Proxy.Stream.Machine.{
  UpstreamEnd, ends, stalls, Reader, scanning, writing, ended, Copier, reading, delivering,
  finished, Caller, waiting, draining, returned, Shared, State, state, is_closed, written, Step,
  Run, start,
}
use llmapi_gate_way.Proxy.Stream.Proper.{IsProper, CallerProper, Run-IsProper, start-IsProper}
use llmapi_gate_way.Common.{
  ℕ, String, ◌≡◌, refl, ◌⊎◌, inl, inr, Bool, true, false, List, [], ◌∷◌, Bool-cases,
}

abbrev pub cancelled_of : State → Bool
cancelled_of (state r c m h) = h.cancelled

-- Both goroutines have ended and `ProxyStream` has returned.
abbrev pub is_over : State → Bool
is_over (state ended (finished e) (returned result e') h) = true
is_over _ = false

written-cancelled :
    (session_id : String) (event : Event) (now : ℕ) (h : Shared)
    → (written session_id event now h).cancelled ≡ h.cancelled
written-cancelled session_id (other_line line) now h = refl
written-cancelled session_id end_mark now h = refl
written-cancelled session_id (chunk_data payload) now h = refl

module _ (unmarshal : String → Result String StreamChunk) (session_id body : String)
    (upstream : UpstreamEnd) where
  -- A next step that is not the client's.
  abbrev pub CanStep : State → Type 0
  CanStep s =
      (t : State) × Step unmarshal session_id body upstream s t × (cancelled_of t ≡ cancelled_of s)

  copier_step :
      (r : Reader) (c : Copier) (m : Caller) (h : Shared)
      → is_closed h ≡ true
      → (r ≡ ended) ⊎ CanStep (state r c m h)
      → (is_over (state r c m h) ≡ true) ⊎ CanStep (state r c m h)
  copier_step r reading m h shut over = inr (_, Step.read_fails shut, refl)
  copier_step r (delivering piece) m h shut over = inr (_, Step.delivers, refl)
  copier_step r (finished e) waiting h shut over = inr (_, Step.copy_ends, refl)
  copier_step r (finished e) draining h shut over = inr (_, Step.drains, refl)
  copier_step r (finished e) (returned result e') h shut (inl q) = inl (rw q refl)
  copier_step r (finished e) (returned result e') h shut (inr step) = inr step

  -- The reader before the end of the lines: it ends with the upstream, or with the body.
  scan_step :
      (c : Copier) (m : Caller) (h : Shared) (end : UpstreamEnd)
      → upstream ≡ end
      → (end ≡ stalls → h.cancelled ≡ true)
      → CallerProper session_id body m (is_closed h) h.pool
      → CanStep (state (scanning []) c m h)
  scan_step c m h (ends e) q live p = (_, Step.scan_ends q, refl)
  scan_step c waiting h stalls q live p = (_, Step.interrupts (live refl), refl)
  scan_step c draining h stalls q live (shut, (left, body_shut)) =
      (_, Step.scan_breaks body_shut, refl)
  scan_step c (returned result e) h stalls q live (shut, (left, body_shut)) =
      (_, Step.scan_breaks body_shut, refl)

  write_step :
      (x : Char) (t : String) (event : Event) (rest : List String) (c : Copier) (m : Caller)
      (h : Shared) (shut : Bool)
      → is_closed h ≡ shut
      → CallerProper session_id body m shut h.pool
      → CanStep (state (writing (String.◌∷◌ x t) event rest) c m h)
  write_step x t event rest c m h true q p = (_, Step.write_fails q, refl)
  write_step x t event rest reading m h false q p = (_, Step.reads q, refl)
  write_step x t event rest (delivering piece) m h false q p = (_, Step.delivers, refl)
  write_step x t event rest (finished e) waiting h false q p = (_, Step.copy_ends, refl)
  write_step x t event rest (finished e) draining h false q (shut, gone) = absurd (cc shut)
  write_step x t event rest (finished e) (returned result e') h false q (shut, gone) =
      absurd (cc shut)

  IsProper-step :
      (s : State)
      → IsProper session_id body s
      → (upstream ≡ stalls → cancelled_of s ≡ true)
      → (is_over s ≡ true) ⊎ CanStep s
  IsProper-step (state (scanning []) c m h) (r, p) live = inr (scan_step c m h upstream refl live p)
  IsProper-step (state (scanning (line ∷ rest)) c m h) (r, p) live = elim (Bool-cases h.cancelled) [
    | inl gone_away ↦ inr (_, Step.stops gone_away, refl)
    | inr there ↦ inr (_, Step.takes there, refl)
  ]
  IsProper-step (state (writing String.[] event rest) c m h) (r, p) live =
      inr (_, Step.resumes 0, written-cancelled session_id event 0 h)
  IsProper-step (state (writing (String.◌∷◌ x t) event rest) c m h) (r, p) live =
      inr (write_step x t event rest c m h (is_closed h) refl p)
  IsProper-step (state ended c m h) (shut, p) live = copier_step ended c m h shut (inl refl)

  -- In every state that a schedule reaches, one of the two goroutines or the caller can go on, or all
  -- three have ended; where the upstream stalls, the request has to be cancelled.
  pub Run-step :
      {n : ℕ} {s : State} (now : ℕ) (pool : ConnectionManager) (lines : List String)
      → Run unmarshal session_id body upstream n (start session_id body now pool lines) s
      → (upstream ≡ stalls → cancelled_of s ≡ true)
      → (is_over s ≡ true) ⊎ CanStep s
  Run-step {s = s} now pool lines run live =
      IsProper-step s
        (Run-IsProper unmarshal session_id body run (start-IsProper session_id body now pool lines))
        live
