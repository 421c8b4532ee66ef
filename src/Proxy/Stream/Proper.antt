-- ===== src/Proxy/Stream/Proper.antt =====
-- The connection and the pipe in the reachable states of a stream: what stays true of them.
use llmapi_gate_way.Common.Result.{Result}
use llmapi_gate_way.Handler.Gateway.{StreamResult}
use llmapi_gate_way.Proxy.Connections.{
  Connection, ConnectionManager, register, open_body, close, update_activity,
}
use llmapi_gate_way.Proxy.Stream.{StreamChunk, other_line, end_mark, chunk_data}
use llmapi_gate_way.Proxy.Stream.Machine.{
  StreamError, context_done, UpstreamEnd, Reader, scanning, writing, ended, Copier, Caller, waiting,
  draining, returned, Shared, State, state, first_error, closed_by, is_closed, holds, Step, Run,
  start,
}
use llmapi_gate_way.Common.{
  ℕ, String, ◌≡◌, refl, Bool, true, false, Option, none, some, List, eq_refl,
}
use llmapi_gate_way.Common.Assoc.{lookup, lookup-delete, lookup-insert_self}
use llmapi_gate_way.Common.Time.{at}

closed_write :
    (w r : Option (Option StreamError)) (e : Option StreamError)
    → closed_by (first_error w e) r ≡ true
closed_write none none e = refl
closed_write none (some r) e = refl
closed_write (some w) r e = refl

closed_read :
    (w r : Option (Option StreamError)) (e : Option StreamError)
    → closed_by w (first_error r e) ≡ true
closed_read none none e = refl
closed_read none (some r) e = refl
closed_read (some w) r e = refl

-- A stream whose connection waits in the pool with its body open, and one that has left it.
abbrev pub IsRegistered : String → String → ConnectionManager → Type 0
IsRegistered session_id body pool =
    (conn : Connection) × (lookup session_id pool.connections ≡ some conn)
    × (conn.closed ≡ false)
    × (conn.upstream_body ≡ some body)

abbrev pub IsGone : String → String → ConnectionManager → Type 0
IsGone session_id body pool =
    (lookup session_id pool.connections ≡ none) × (holds body pool.closed_bodies ≡ true)

module _ (session_id body : String) where
  update_activity-IsRegistered :
      (now : ℕ) (pool : ConnectionManager)
      → IsRegistered session_id body pool
      → IsRegistered session_id body (update_activity session_id now pool)
  unfolding update_activity
  update_activity-IsRegistered now pool (conn, held, still, own) =
      rw (held, update_activity)
        (
          record conn { last_activity = at now },
          lookup-insert_self session_id (record conn { last_activity = at now }) pool.connections,
          still,
          own,
        )

  update_activity-IsGone :
      (now : ℕ) (pool : ConnectionManager)
      → IsGone session_id body pool
      → IsGone session_id body (update_activity session_id now pool)
  unfolding update_activity
  update_activity-IsGone now pool (left, shut) = rw (left, update_activity) (left, shut)

  close-IsGone :
      (pool : ConnectionManager)
      → IsRegistered session_id body pool
      → IsGone session_id body (close session_id pool)
  unfolding close open_body
  close-IsGone pool (conn, held, still, own) =
      rw (held, close, still, own)
        (
          rw (lookup-delete session_id session_id pool.connections, eq_refl session_id) refl,
          rw (eq_refl body) refl,
        )

  -- What holds of the reader and of the caller, given whether the pipe is closed, and the pool.
  abbrev pub ReaderProper : Reader → Bool → Type 0
  ReaderProper (scanning lines) shut = Unit
  ReaderProper (writing t event rest) shut = Unit
  ReaderProper ended shut = shut ≡ true

  abbrev pub CallerProper : Caller → Bool → ConnectionManager → Type 0
  CallerProper waiting shut pool = IsRegistered session_id body pool
  CallerProper draining shut pool = (shut ≡ true) × IsGone session_id body pool
  CallerProper (returned result e) shut pool = (shut ≡ true) × IsGone session_id body pool

  abbrev pub IsProper : State → Type 0
  IsProper (state r c m h) = ReaderProper r (is_closed h) × CallerProper m (is_closed h) h.pool

  -- A pipe that is closed serves as well as one that is not.
  ReaderProper-shut :
      (r : Reader) (shut shut' : Bool) → ReaderProper r shut → shut' ≡ true → ReaderProper r shut'
  ReaderProper-shut (scanning lines) shut shut' p e = tt
  ReaderProper-shut (writing t event rest) shut shut' p e = tt
  ReaderProper-shut ended shut shut' p e = e

  CallerProper-shut :
      (m : Caller) (shut shut' : Bool) (pool : ConnectionManager)
      → CallerProper m shut pool
      → shut' ≡ true
      → CallerProper m shut' pool
  CallerProper-shut waiting shut shut' pool p e = p
  CallerProper-shut draining shut shut' pool (q, gone) e = (e, gone)
  CallerProper-shut (returned result x) shut shut' pool (q, gone) e = (e, gone)

  update_activity-CallerProper :
      (m : Caller) (shut : Bool) (pool : ConnectionManager) (now : ℕ)
      → CallerProper m shut pool
      → CallerProper m shut (update_activity session_id now pool)
  update_activity-CallerProper waiting shut pool now p = update_activity-IsRegistered now pool p
  update_activity-CallerProper draining shut pool now (q, gone) =
      (q, update_activity-IsGone now pool gone)
  update_activity-CallerProper (returned result e) shut pool now (q, gone) =
      (q, update_activity-IsGone now pool gone)

  -- The reader ends and closes its end.
  close_write-IsProper :
      (m : Caller) (h : Shared) (e : Option StreamError)
      → CallerProper m (is_closed h) h.pool
      → (closed_by (first_error h.write_end e) h.read_end ≡ true)
        × CallerProper m (closed_by (first_error h.write_end e) h.read_end) h.pool
  close_write-IsProper m h e p =
      let shut = closed_write h.write_end h.read_end e in
      (shut, CallerProper-shut m (is_closed h) _ h.pool p shut)

  pub start-IsProper :
      (now : ℕ) (pool : ConnectionManager) (lines : List String)
      → IsProper (start session_id body now pool lines)
  unfolding start register
  start-IsProper now pool lines =
      (tt, (_, lookup-insert_self session_id _ pool.connections, refl, refl))

module _ (unmarshal : String → Result String StreamChunk) (session_id body : String)
    {upstream : UpstreamEnd} where
  Step-IsProper :
      {s t : State}
      → Step unmarshal session_id body upstream s t
      → IsProper session_id body s
      → IsProper session_id body t
  Step-IsProper (Step.takes e) p = p
  Step-IsProper (Step.stops {m = m} {h = h} e) (r, p) = close_write-IsProper session_id body m h _ p
  Step-IsProper (Step.scan_ends {m = m} {h = h} e) (r, p) =
      close_write-IsProper session_id body m h _ p
  Step-IsProper (Step.scan_breaks {m = m} {h = h} e) (r, p) =
      close_write-IsProper session_id body m h _ p
  Step-IsProper (Step.resumes {event = other_line line} now) p = p
  Step-IsProper (Step.resumes {event = end_mark} {m = m} {h = h} now) (r, p) =
      close_write-IsProper session_id body m h none p
  Step-IsProper (Step.resumes {event = chunk_data payload} {m = m} {h = h} now) (r, p) =
      (tt, update_activity-CallerProper session_id body m (is_closed h) h.pool now p)
  Step-IsProper (Step.write_fails {m = m} {h = h} e) (r, p) =
      close_write-IsProper session_id body m h _ p
  Step-IsProper (Step.reads e) p = p
  Step-IsProper (Step.read_fails e) p = p
  Step-IsProper Step.delivers p = p
  Step-IsProper (Step.client_fails e) p = p
  Step-IsProper (Step.interrupts {r = r} {h = h} e) (rp, p) =
      let shut = closed_read (first_error h.write_end (some context_done)) h.read_end _ in
      (
        ReaderProper-shut session_id body r (is_closed h) _ rp shut,
        (shut, close-IsGone session_id body h.pool p),
      )
  Step-IsProper (Step.copy_ends {r = r} {h = h}) (rp, p) =
      let shut = closed_read h.write_end h.read_end none in
      (
        ReaderProper-shut session_id body r (is_closed h) _ rp shut,
        (shut, close-IsGone session_id body h.pool p),
      )
  Step-IsProper Step.drains p = p
  Step-IsProper (Step.cancels e) p = p

  pub Run-IsProper :
      {n : ℕ} {s t : State}
      → Run unmarshal session_id body upstream n s t
      → IsProper session_id body s
      → IsProper session_id body t
  Run-IsProper Run.stay p = p
  Run-IsProper (Run.then run step) p = Step-IsProper step (Run-IsProper run p)

  -- When `ProxyStream` has returned, in any schedule, its session has left the pool, its upstream body
  -- is closed, and so is the pipe.
  pub Run-IsGone :
      {n : ℕ} {r : Reader} {c : Copier} {result : StreamResult} {e : Option StreamError}
      {h : Shared} (now : ℕ) (pool : ConnectionManager) (lines : List String)
      → Run unmarshal session_id body upstream n
          (start session_id body now pool lines)
          (state r c (returned result e) h)
      → (is_closed h ≡ true) × IsGone session_id body h.pool
  Run-IsGone now pool lines run =
      (Run-IsProper run (start-IsProper session_id body now pool lines)).1
