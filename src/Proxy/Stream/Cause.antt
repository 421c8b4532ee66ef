-- ===== src/Proxy/Stream/Cause.antt =====
-- Where the errors that `ProxyStream` returns come from.
use mathlib.Core.Path.{subst}
use llmapi_gate_way.Common.Result.{Result}
use llmapi_gate_way.Handler.Gateway.{StreamResult}
use llmapi_gate_way.Proxy.Connections.{ConnectionManager, register, update_activity}
use llmapi_gate_way.Proxy.Stream.{StreamChunk, other_line, end_mark, chunk_data}
use llmapi_gate_way.Proxy.Stream.Machine.{
  StreamError, client_failed, UpstreamEnd, ends, Reader, Copier, reading, delivering, finished,
  Caller, waiting, draining, returned, Shared, State, state, first_error, closed_by, error_of,
  holds, read_error, take_bytes, buffer_rest, Step, Run, start,
}
use llmapi_gate_way.Proxy.Stream.Delivery.{Ends, is_live}
use llmapi_gate_way.Proxy.Stream.Exact.{first_error-ne-none}
use llmapi_gate_way.Common.{
  ℕ, String, ◌≡◌, refl, sym, ap, ◌∙◌, ◌≢◌, ◌⊎◌, inl, inr, Bool, true, false, Option, none, some,
  List, some_inj, Option-cases,
}
use llmapi_gate_way.Common.Assoc.{lookup}

update_activity-closed_bodies :
    (session_id : String) (now : ℕ) (pool : ConnectionManager)
    → (update_activity session_id now pool).closed_bodies ≡ pool.closed_bodies
unfolding update_activity
update_activity-closed_bodies session_id now pool =
    elim (Option-cases (lookup session_id pool.connections)) [
      | inl missing ↦ rw (missing, update_activity) refl
      | inr (conn, found) ↦ rw (found, update_activity) refl
    ]

open_pipe : (w r : Ends) → w ≡ none → r ≡ none → closed_by w r ≢ true
open_pipe none none p q h = cc
open_pipe (some e) r p q h = cc
open_pipe none (some e) p q h = cc

module _ (upstream : UpstreamEnd) (body : String) where
  -- The request was cancelled, the client failed with the error, or the upstream ended with it.
  abbrev pub Cause : Bool → StreamError → Type 0
  Cause cancelled e =
      (cancelled ≡ true) ⊎ (((t : String) × (e ≡ client_failed t)) ⊎ (upstream ≡ ends (some e)))

  abbrev WriteCause : Ends → Ends → Bool → Type 0
  WriteCause w r cancelled = (e : StreamError) → r ≡ none → w ≡ some (some e) → Cause cancelled e

  abbrev ErrorCause : Option StreamError → Bool → Type 0
  ErrorCause none cancelled = Unit
  ErrorCause (some e) cancelled = Cause cancelled e

  abbrev CopierCause : Copier → Bool → Type 0
  CopierCause reading cancelled = Unit
  CopierCause (delivering piece) cancelled = Unit
  CopierCause (finished e) cancelled = ErrorCause e cancelled

  abbrev CallerCause : Copier → Caller → Ends → Bool → List String → Type 0
  CallerCause c waiting r cancelled bodies = (r ≡ none) × (holds body bodies ≡ false)
  CallerCause c draining r cancelled bodies = (r ≢ none) × (cancelled ≡ true)
  CallerCause c (returned result e) r cancelled bodies =
      (r ≢ none) × (is_live c ≡ false) × ErrorCause e cancelled

  abbrev IsCaused : State → Type 0
  IsCaused (state r c m h) =
      WriteCause h.write_end h.read_end h.cancelled
      × CopierCause c h.cancelled
      × CallerCause c m h.read_end h.cancelled h.pool.closed_bodies

  close_write-WriteCause :
      (w r : Ends) (cancelled : Bool) (e : Option StreamError)
      → WriteCause w r cancelled
      → ((x : StreamError) → w ≡ none → r ≡ none → e ≡ some x → Cause cancelled x)
      → WriteCause (first_error w e) r cancelled
  close_write-WriteCause none r cancelled e old new x open_yet q = new x refl open_yet (some_inj q)
  close_write-WriteCause (some first) r cancelled e old new x open_yet q = old x open_yet q

  CallerCause-live :
      (c c' : Copier) (m : Caller) (r : Ends) (cancelled : Bool) (bodies : List String)
      → is_live c ≡ true
      → CallerCause c m r cancelled bodies
      → CallerCause c' m r cancelled bodies
  CallerCause-live c c' waiting r cancelled bodies live p = p
  CallerCause-live c c' draining r cancelled bodies live p = p
  CallerCause-live c c' (returned result e) r cancelled bodies live (shut, dead, p) = cc

  CallerCause-bodies :
      (c : Copier) (m : Caller) (r : Ends) (cancelled : Bool) (bodies bodies' : List String)
      → bodies' ≡ bodies
      → CallerCause c m r cancelled bodies
      → CallerCause c m r cancelled bodies'
  CallerCause-bodies c m r cancelled bodies bodies' q p =
      subst (λ bs. CallerCause c m r cancelled bs) (sym q) p

  -- A body that is closed while nobody closed the reader's end was closed by no one.
  broken :
      (c : Copier) (m : Caller) (r : Ends) (cancelled : Bool) (bodies : List String)
      (e : StreamError)
      → CallerCause c m r cancelled bodies
      → holds body bodies ≡ true
      → r ≡ none
      → Cause cancelled e
  broken c waiting r cancelled bodies e (open_yet, unheld) shut q = cc
  broken c draining r cancelled bodies e (closed, by_client) shut q = inl by_client
  broken c (returned result x) r cancelled bodies e (closed, dead, p) shut q = absurd (closed q)

  read_fails-ErrorCause :
      (m : Caller) (w r : Ends) (cancelled : Bool) (bodies : List String)
      → closed_by w r ≡ true
      → WriteCause w r cancelled
      → CallerCause reading m r cancelled bodies
      → ErrorCause (error_of r w) cancelled
  read_fails-ErrorCause m (some none) none cancelled bodies shut writes p = tt
  read_fails-ErrorCause m (some (some e)) none cancelled bodies shut writes p = writes e refl refl
  read_fails-ErrorCause waiting w (some e) cancelled bodies shut writes (open_yet, p) = cc
  read_fails-ErrorCause draining w (some e) cancelled bodies shut writes (closed, by_client) =
      inl by_client
  read_fails-ErrorCause (returned result x) w (some e) cancelled bodies shut writes
        (closed, dead, p) =
      cc
  read_fails-ErrorCause m none none cancelled bodies shut writes p = cc

  cancelled-ErrorCause : (e : Option StreamError) → ErrorCause e true
  cancelled-ErrorCause none = tt
  cancelled-ErrorCause (some e) = inl refl

  cancelled-CopierCause : (c : Copier) → CopierCause c true
  cancelled-CopierCause reading = tt
  cancelled-CopierCause (delivering piece) = tt
  cancelled-CopierCause (finished e) = cancelled-ErrorCause e

  cancelled-CallerCause :
      (c : Copier) (m : Caller) (r : Ends) (cancelled : Bool) (bodies : List String)
      → CallerCause c m r cancelled bodies
      → CallerCause c m r true bodies
  cancelled-CallerCause c waiting r cancelled bodies p = p
  cancelled-CallerCause c draining r cancelled bodies (closed, by_client) = (closed, refl)
  cancelled-CallerCause c (returned result e) r cancelled bodies (closed, dead, p) =
      (closed, dead, cancelled-ErrorCause e)

module _ (unmarshal : String → Result String StreamChunk) (session_id body : String)
    {upstream : UpstreamEnd} where
  Step-IsCaused :
      {s t : State}
      → Step unmarshal session_id body upstream s t
      → IsCaused upstream body s
      → IsCaused upstream body t
  Step-IsCaused (Step.takes q) p = p
  Step-IsCaused (Step.stops {h = h} q) (writes, copies, calls) = (
    close_write-WriteCause upstream body h.write_end h.read_end h.cancelled _ writes
        (λ x fresh open_yet e. inl q),
    copies,
    calls,
  )
  Step-IsCaused (Step.scan_ends {e = e} {h = h} q) (writes, copies, calls) = (
    close_write-WriteCause upstream body h.write_end h.read_end h.cancelled e writes
        (λ x fresh open_yet own. inr (inr (q ∙ ap ends own))),
    copies,
    calls,
  )
  Step-IsCaused (Step.scan_breaks {c = c} {m = m} {h = h} q) (writes, copies, calls) = (
    close_write-WriteCause upstream body h.write_end h.read_end h.cancelled _ writes
        (λ x fresh open_yet own.
          broken upstream body c m h.read_end h.cancelled h.pool.closed_bodies x calls q open_yet),
    copies,
    calls,
  )
  Step-IsCaused (Step.resumes {event = other_line line} now) p = p
  Step-IsCaused (Step.resumes {event = end_mark} {h = h} now) (writes, copies, calls) = (
    close_write-WriteCause upstream body h.write_end h.read_end h.cancelled none writes
        (λ x fresh open_yet own. cc),
    copies,
    calls,
  )
  Step-IsCaused (Step.resumes {event = chunk_data payload} {c = c} {m = m} {h = h} now)
        (writes, copies, calls) =
      (
        writes,
        copies,
        CallerCause-bodies upstream body c m h.read_end h.cancelled _ _
            (update_activity-closed_bodies session_id now h.pool) calls,
      )
  Step-IsCaused (Step.write_fails {h = h} shut) (writes, copies, calls) = (
    close_write-WriteCause upstream body h.write_end h.read_end h.cancelled _ writes
        (λ x fresh open_yet own. absurd (open_pipe h.write_end h.read_end fresh open_yet shut)),
    copies,
    calls,
  )
  Step-IsCaused (Step.reads {x = x} {t = t} {m = m} {h = h} q) (writes, copies, calls) = (
    writes,
    tt,
    CallerCause-live upstream body reading (delivering (String.◌∷◌ x (take_bytes buffer_rest t))) m
        h.read_end h.cancelled h.pool.closed_bodies refl calls,
  )
  Step-IsCaused (Step.read_fails {m = m} {h = h} shut) (writes, copies, calls) = (
    writes,
    read_fails-ErrorCause upstream body m h.write_end h.read_end h.cancelled h.pool.closed_bodies
        shut writes calls,
    CallerCause-live upstream body reading (finished (read_error h)) m h.read_end h.cancelled
        h.pool.closed_bodies refl calls,
  )
  Step-IsCaused (Step.delivers {piece = piece} {m = m} {h = h}) (writes, copies, calls) = (
    writes,
    tt,
    CallerCause-live upstream body (delivering piece) reading m h.read_end h.cancelled
        h.pool.closed_bodies refl calls,
  )
  Step-IsCaused (Step.client_fails {piece = piece} {m = m} {h = h} e) (writes, copies, calls) = (
    writes,
    inr (inl (e, refl)),
    CallerCause-live upstream body (delivering piece) (finished (some (client_failed e))) m
        h.read_end h.cancelled h.pool.closed_bodies refl calls,
  )
  Step-IsCaused (Step.interrupts {h = h} q) (writes, copies, calls) = (
    λ x open_yet e. absurd (first_error-ne-none h.read_end _ open_yet),
    copies,
    (first_error-ne-none h.read_end _, q),
  )
  Step-IsCaused (Step.copy_ends {h = h}) (writes, copies, calls) = (
    λ x open_yet e. absurd (first_error-ne-none h.read_end _ open_yet),
    copies,
    (first_error-ne-none h.read_end _, refl, copies),
  )
  Step-IsCaused (Step.drains {h = h}) (writes, copies, (closed, by_client)) =
      (writes, copies, (closed, refl, inl by_client))
  Step-IsCaused (Step.cancels {c = c} {m = m} {h = h} q) (writes, copies, calls) = (
    λ x open_yet e. inl refl,
    cancelled-CopierCause upstream body c,
    cancelled-CallerCause upstream body c m h.read_end h.cancelled h.pool.closed_bodies calls,
  )

  Run-IsCaused :
      {n : ℕ} {s t : State}
      → Run unmarshal session_id body upstream n s t
      → IsCaused upstream body s
      → IsCaused upstream body t
  Run-IsCaused Run.stay p = p
  Run-IsCaused (Run.then run step) p = Step-IsCaused step (Run-IsCaused run p)

  -- An error that `ProxyStream` returns, for a body that was open, has a cause: the request was cancelled,
  -- a write to the client failed with it, or the upstream ended with it. Without these it returns none.
  pub Run-error :
      {n : ℕ} {r : Reader} {c : Copier} {result : StreamResult} {e : StreamError} {h : Shared}
      (now : ℕ) (pool : ConnectionManager) (lines : List String)
      → holds body pool.closed_bodies ≡ false
      → Run unmarshal session_id body upstream n
          (start session_id body now pool lines)
          (state r c (returned result (some e)) h)
      → (h.cancelled ≡ true) ⊎ (((t : String) × (e ≡ client_failed t)) ⊎ (upstream ≡ ends (some e)))
  unfolding start register
  Run-error now pool lines unheld run =
      (Run-IsCaused run ((λ x open_yet q. cc), tt, (refl, unheld))).2.2
