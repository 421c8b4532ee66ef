-- ===== src/Proxy/Stream/Machine.antt =====
-- `ProxyStream` of internal/proxy/stream.go: the reader of the upstream body (goroutine A), the copier
-- to the client (goroutine B) and the caller that waits for them, each step of one of them at a time,
-- in any order. The two goroutines meet in an `io.Pipe`: a write waits until its text is read or the
-- pipe is closed, and each end keeps the first error that it is closed with.
use Prim.Native.String.{◌++◌ as concat}
use Prim.Native.Char.{Char}
use llmapi_gate_way.Common.Result.{Result}
use llmapi_gate_way.Handler.Gateway.{StreamResult}
use llmapi_gate_way.Proxy.Connections.{ConnectionManager, register, close, update_activity}
use llmapi_gate_way.Proxy.Stream.{
  StreamChunk, Event, other_line, end_mark, chunk_data, event_of, forwarded, count, no_tokens,
}
use llmapi_gate_way.Common.{
  ℕ, zero, suc, String, ◌≡◌, Bool, true, false, ◌||◌, Option, none, some, List, [], ◌∷◌, ◌==◌,
}
use llmapi_gate_way.Common.Time.{at}

pub data StreamError : Type 0 where
  -- `ctx.Err()`
  context_done : StreamError
  -- The scanner's error: the body cannot be read, or a line is too long.
  scan_failed : String → StreamError
  body_closed : StreamError
  -- `io.ErrClosedPipe`
  pipe_closed : StreamError
  client_failed : String → StreamError

-- What comes after the lines that the scanner gives: its end, with an error or not, or nothing until
-- the body is closed.
pub data UpstreamEnd : Type 0 where
  ends : Option StreamError → UpstreamEnd
  stalls : UpstreamEnd

-- Goroutine A: before a `Scan` with these lines to come, in a write with the text that is not read
-- yet, or ended.
pub data Reader : Type 0 where
  scanning : List String → Reader
  writing : String → Event → List String → Reader
  ended : Reader

-- Goroutine B: before a `Read`, in `w.Write`, or ended with the error sent to `copyDone`.
pub data Copier : Type 0 where
  reading : Copier
  delivering : String → Copier
  finished : Option StreamError → Copier

-- The caller: in the `select`, waiting for `copyDone` after a cancellation, or returned.
pub data Caller : Type 0 where
  waiting : Caller
  draining : Caller
  returned : StreamResult → Option StreamError → Caller

-- What they share. An end of the pipe that is closed has its error, where none is `io.EOF`.
pub record Shared : Type 0 where
  pub write_end : Option (Option StreamError)
  pub read_end : Option (Option StreamError)
  pub result : StreamResult
  pub client : String
  pub pool : ConnectionManager
  pub cancelled : Bool

pub data State : Type 0 where
  state : Reader → Copier → Caller → Shared → State

abbrev pub first_error :
    Option (Option StreamError) → Option StreamError → Option (Option StreamError)
first_error none e = some e
first_error (some held) e = some held

-- `pw.CloseWithError` and `pr.CloseWithError`
abbrev pub close_write : Option StreamError → Shared → Shared
close_write e h = record h { write_end = first_error h.write_end e }

abbrev pub close_read : Option StreamError → Shared → Shared
close_read e h = record h { read_end = first_error h.read_end e }

abbrev pub closed_by : Option (Option StreamError) → Option (Option StreamError) → Bool
closed_by none none = false
closed_by none (some r) = true
closed_by (some w) r = true

abbrev pub is_closed : Shared → Bool
is_closed h = closed_by h.write_end h.read_end

-- The error of the one end once the pipe is closed: what the other end was closed with, if this end
-- was not closed itself.
abbrev pub error_of : Option (Option StreamError) → Option (Option StreamError) → Option StreamError
error_of none (some e) = e
error_of none none = some pipe_closed
error_of (some own) other = some pipe_closed

abbrev pub read_error : Shared → Option StreamError
read_error h = error_of h.read_end h.write_end

abbrev pub write_error : Shared → Option StreamError
write_error h = error_of h.write_end h.read_end

-- The first bytes of a text, and those after them.
unfoldable pub take_bytes : ℕ → String → String
take_bytes zero s = ""
take_bytes (suc n) String.[] = ""
take_bytes (suc n) (String.◌∷◌ c s) = String.◌∷◌ c (take_bytes n s)

unfoldable pub drop_bytes : ℕ → String → String
drop_bytes zero s = s
drop_bytes (suc n) String.[] = ""
drop_bytes (suc n) (String.◌∷◌ c s) = drop_bytes n s

-- The buffer of the copier is one byte more.
abbrev pub buffer_rest : ℕ
buffer_rest = 4095

abbrev pub holds : String → List String → Bool
holds b [] = false
holds b (body ∷ bodies) = (body == b) || holds b bodies

-- After a write: the next line, or the end.
abbrev pub resumed : Event → List String → Reader
resumed (other_line line) rest = scanning rest
resumed end_mark rest = ended
resumed (chunk_data payload) rest = scanning rest

abbrev pub counted : (String → Result String StreamChunk) → Event → Shared → Shared
counted unmarshal event h = record h { result = count unmarshal event h.result }

-- What the reader does after a write, at the time `now`.
abbrev pub written : String → Event → ℕ → Shared → Shared
written session_id (other_line line) now h = h
written session_id end_mark now h = close_write none h
written session_id (chunk_data payload) now h = record h {
  pool = update_activity session_id now h.pool;
}

-- The caller's reaction to a cancellation, and to the end of the copier.
abbrev pub interrupted : String → Shared → Shared
interrupted session_id h =
    let h' = close_read (some context_done) (close_write (some context_done) h) in
    record h' { pool = close session_id h'.pool }

abbrev pub released : String → Shared → Shared
released session_id h = close_read none (record h { pool = close session_id h.pool })

-- The state after `Register`, before the goroutines run.
unfoldable pub start : String → String → ℕ → ConnectionManager → List String → State
start session_id body now pool lines = state (scanning lines) reading waiting (record {
  write_end = none;
  read_end = none;
  result = no_tokens;
  client = "";
  pool =
      register session_id
        (record {
          id = session_id;
          upstream_body = some body;
          created_at = at now;
          last_activity = at now;
          closed = false;
        })
        pool;
  cancelled = false;
})

module _ (unmarshal : String → Result String StreamChunk) (session_id body : String) where
  -- One step of the reader, the copier, the caller, or of the client that goes away.
  pub data Step (upstream : UpstreamEnd) : State → State → Type 0 where
    takes :
        {line : String} {rest : List String} {c : Copier} {m : Caller} {h : Shared}
        → h.cancelled ≡ false
        → Step upstream (state (scanning (line ∷ rest)) c m h) (
            state
              (writing (forwarded (event_of line)) (event_of line) rest)
              c
              m
              (counted unmarshal (event_of line) h))
    stops :
        {line : String} {rest : List String} {c : Copier} {m : Caller} {h : Shared}
        → h.cancelled ≡ true
        → Step upstream
            (state (scanning (line ∷ rest)) c m h)
            (state ended c m (close_write (some context_done) h))
    scan_ends :
        {e : Option StreamError} {c : Copier} {m : Caller} {h : Shared}
        → upstream ≡ ends e
        → Step upstream (state (scanning []) c m h) (state ended c m (close_write e h))
    scan_breaks :
        {lines : List String} {c : Copier} {m : Caller} {h : Shared}
        → holds body h.pool.closed_bodies ≡ true
        → Step upstream
            (state (scanning lines) c m h)
            (state ended c m (close_write (some body_closed) h))
    resumes :
        {event : Event} {rest : List String} {c : Copier} {m : Caller} {h : Shared}
        → (now : ℕ)
        → Step upstream
            (state (writing "" event rest) c m h)
            (state (resumed event rest) c m (written session_id event now h))
    write_fails :
        {x : Char} {t : String} {event : Event} {rest : List String} {c : Copier} {m : Caller}
        {h : Shared}
        → is_closed h ≡ true
        → Step upstream
            (state (writing (String.◌∷◌ x t) event rest) c m h)
            (state ended c m (close_write (write_error h) h))
    reads :
        {x : Char} {t : String} {event : Event} {rest : List String} {m : Caller} {h : Shared}
        → is_closed h ≡ false
        → Step upstream (state (writing (String.◌∷◌ x t) event rest) reading m h) (
            state
              (writing (drop_bytes buffer_rest t) event rest)
              (delivering (String.◌∷◌ x (take_bytes buffer_rest t)))
              m
              h)
    read_fails :
        {r : Reader} {m : Caller} {h : Shared}
        → is_closed h ≡ true
        → Step upstream (state r reading m h) (state r (finished (read_error h)) m h)
    delivers :
        {r : Reader} {piece : String} {m : Caller} {h : Shared}
        → Step upstream
            (state r (delivering piece) m h)
            (state r reading m (record h { client = concat h.client piece }))
    client_fails :
        {r : Reader} {piece : String} {m : Caller} {h : Shared}
        → (e : String)
        → Step upstream
            (state r (delivering piece) m h)
            (state r (finished (some (client_failed e))) m h)
    interrupts :
        {r : Reader} {c : Copier} {h : Shared}
        → h.cancelled ≡ true
        → Step upstream (state r c waiting h) (state r c draining (interrupted session_id h))
    copy_ends :
        {r : Reader} {e : Option StreamError} {h : Shared}
        → Step upstream
            (state r (finished e) waiting h)
            (state r (finished e) (returned h.result e) (released session_id h))
    drains :
        {r : Reader} {e : Option StreamError} {h : Shared}
        → Step upstream
            (state r (finished e) draining h)
            (state r (finished e) (returned h.result (some context_done)) h)
    cancels :
        {r : Reader} {c : Copier} {m : Caller} {h : Shared}
        → h.cancelled ≡ false
        → Step upstream (state r c m h) (state r c m (record h { cancelled = true }))

  -- A schedule of so many steps.
  pub data Run (upstream : UpstreamEnd) : ℕ → State → State → Type 0 where
    stay : {s : State} → Run upstream 0 s s
    then :
        {n : ℕ} {s t u : State} → Run upstream n s t → Step upstream t u → Run upstream (suc n) s u
