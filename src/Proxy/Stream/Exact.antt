-- ===== src/Proxy/Stream/Exact.antt =====
-- What the client has of a stream in each reachable state, and what `ProxyStream` returns, against the
-- forwarded text and the counts of all lines.
use Prim.Native.Char.{Char}
use Prim.Native.String.{◌++◌ as concat}
use text.Mathlib.TextLemmas.{nil-append, append-nil, append_assoc, cons-append}
use llmapi_gate_way.Common.Result.{Result}
use llmapi_gate_way.Handler.Gateway.{StreamResult}
use llmapi_gate_way.Proxy.Connections.{ConnectionManager}
use llmapi_gate_way.Proxy.Stream.{
  StreamChunk, other_line, end_mark, chunk_data, no_tokens, following, render, tally,
}
use llmapi_gate_way.Proxy.Stream.Machine.{
  StreamError, client_failed, UpstreamEnd, Reader, scanning, writing, ended, Copier, reading,
  delivering, finished, Caller, returned, Shared, State, state, first_error, closed_by, error_of,
  take_bytes, drop_bytes, buffer_rest, Step, Run, start,
}
use llmapi_gate_way.Proxy.Stream.Delivery.{
  Untouched, held, Ahead, Done, Flows, fresh, take_bytes-drop_bytes, Ended-scanning, Ended-writing,
  Answered-live, Ahead-shut, Ahead-Done,
}
use llmapi_gate_way.Common.{ℕ, String, ◌≡◌, refl, sym, ap, ◌∙◌, ◌≢◌, true, Option, none, some, List}

pub first_error-ne-none :
    (w : Option (Option StreamError)) (e : Option StreamError) → first_error w e ≢ none
first_error-ne-none none e h = cc
first_error-ne-none (some held_error) e h = cc

-- A writer that fails saw a closed pipe.
failed_write : (w r : Option (Option StreamError)) → closed_by w r ≡ true → Untouched w r → r ≢ none
failed_write none none shut untouched q = cc
failed_write (some e) none shut untouched q = cc (untouched refl)
failed_write w (some e) shut untouched q = cc

-- The copier reads a part of what is written.
read_part :
    (client whole y t : String) (x : Char) (n : ℕ)
    → concat (concat client "") (concat (String.◌∷◌ x t) y) ≡ whole
    → concat (concat client (String.◌∷◌ x (take_bytes n t))) (concat (drop_bytes n t) y) ≡ whole
read_part client whole y t x n h =
    append_assoc client (String.◌∷◌ x (take_bytes n t)) (concat (drop_bytes n t) y)
    ∙ ap (concat client) (
        sym (append_assoc (String.◌∷◌ x (take_bytes n t)) (drop_bytes n t) y)
        ∙ ap (λ s. concat s y)
            (cons-append x (take_bytes n t) (drop_bytes n t)
              ∙ ap (String.◌∷◌ x) (take_bytes-drop_bytes n t)))
    ∙ ap (λ s. concat s (concat (String.◌∷◌ x t) y)) (sym (append-nil client))
    ∙ h

module _ (unmarshal : String → Result String StreamChunk) (whole : String)
    (total : StreamResult) where
  -- The reader ends with an error, before any more text.
  fails :
      (w r : Option (Option StreamError)) (e : Option StreamError) (result : StreamResult)
      (x : String)
      → Untouched w r
      → (r ≡ none → e ≢ none)
      → Ahead unmarshal whole total ended (first_error w e) r result x
  fails w r e result x untouched bad =
      λ open_yet q. absurd (bad open_yet (fresh w r e untouched open_yet q))

  Done-whole :
      (r : Reader) (client : String) (result : StreamResult) (x : String)
      → concat (concat client "") x ≡ whole
      → Done unmarshal whole total r result x
      → (result ≡ total) × (client ≡ whole)
  Done-whole ended client result x text (none_left, counted_all) = (
    counted_all,
    sym (append-nil client)
        ∙ sym (append-nil _)
        ∙ ap (concat (concat client "")) (sym none_left)
        ∙ text,
  )
  Done-whole (scanning rest) client result x text p = absurd p
  Done-whole (writing t event rest) client result x text p = absurd p

module _ (unmarshal : String → Result String StreamChunk) (whole : String) (total : StreamResult)
    (session_id body : String) {upstream : UpstreamEnd} where
  Step-Flows :
      {s t : State}
      → Step unmarshal session_id body upstream s t
      → Flows unmarshal whole total s
      → Flows unmarshal whole total t
  unfolding render tally
  Step-Flows (Step.takes {line = line} {rest = rest} {c = c} {h = h} e)
        (x, text, ahead, over, answer) =
      (x, text, ahead, Ended-scanning unmarshal whole total c _ _ _ _ x over, answer)
  Step-Flows (Step.stops {c = c} {h = h} e) (x, text, ahead, over, answer) = (
    x,
    text,
    λ live.
        fails unmarshal whole total h.write_end h.read_end _ h.result x (ahead live).2 (λ _ q. cc),
    Ended-scanning unmarshal whole total c _ _ _ _ x over,
    answer,
  )
  Step-Flows (Step.scan_ends {e = e} {c = c} {h = h} q) (x, text, ahead, over, answer) = (
    x,
    text,
    λ live _ _. ((ahead live).0, (ahead live).1),
    Ended-scanning unmarshal whole total c _ _ _ _ x over,
    answer,
  )
  Step-Flows (Step.scan_breaks {c = c} {h = h} q) (x, text, ahead, over, answer) = (
    x,
    text,
    λ live.
        fails unmarshal whole total h.write_end h.read_end _ h.result x (ahead live).2 (λ _ q'. cc),
    Ended-scanning unmarshal whole total c _ _ _ _ x over,
    answer,
  )
  Step-Flows (Step.resumes {event = other_line line} {c = c} {h = h} now)
        (x, text, ahead, over, answer) =
      (
        x,
        text,
        λ live. ((ahead live).0 ∙ nil-append _, (ahead live).1, (ahead live).2),
        Ended-writing unmarshal whole total c _ _ _ _ _ _ x over,
        answer,
      )
  Step-Flows (Step.resumes {event = end_mark} {c = c} {h = h} now) (x, text, ahead, over, answer) =
      (
        x,
        text,
        λ live _ _. ((ahead live).0 ∙ nil-append _, (ahead live).1),
        Ended-writing unmarshal whole total c _ _ _ _ _ _ x over,
        answer,
      )
  Step-Flows (Step.resumes {event = chunk_data payload} {c = c} {h = h} now)
        (x, text, ahead, over, answer) =
      (
        x,
        text,
        λ live. ((ahead live).0 ∙ nil-append _, (ahead live).1, (ahead live).2),
        Ended-writing unmarshal whole total c _ _ _ _ _ _ x over,
        answer,
      )
  Step-Flows (Step.write_fails {c = c} {h = h} shut) (x, text, ahead, over, answer) = (
    x,
    text,
    λ live open_yet. absurd (failed_write h.write_end h.read_end shut (ahead live).2 open_yet),
    Ended-writing unmarshal whole total c _ _ _ _ _ _ x over,
    answer,
  )
  Step-Flows (Step.reads {x = y} {t = t} {event = event} {rest = rest} {m = m} {h = h} open_yet)
        (x, text, ahead, over, answer) =
      (
        concat (drop_bytes buffer_rest t) (following event (render rest) ""),
        read_part h.client whole (following event (render rest) "") t y buffer_rest
            (ap (concat (concat h.client "")) (sym (ahead refl).0) ∙ text),
        λ live. (refl, (ahead refl).1, (ahead refl).2),
        tt,
        Answered-live unmarshal whole total reading
            (delivering (String.◌∷◌ y (take_bytes buffer_rest t))) m h.client h.client refl answer,
      )
  Step-Flows (Step.read_fails {r = r} {m = m} {h = h} shut) (x, text, ahead, over, answer) = (
    x,
    text,
    λ live. cc,
    λ q. Ahead-Done unmarshal whole total r h.write_end h.read_end h.result x (ahead refl) q,
    Answered-live unmarshal whole total reading (finished (error_of h.read_end h.write_end)) m
        h.client h.client refl answer,
  )
  Step-Flows (Step.delivers {piece = piece} {m = m} {h = h}) (x, text, ahead, over, answer) = (
    x,
    ap (λ s. concat s x) (append-nil (concat h.client piece)) ∙ text,
    λ live. ahead refl,
    tt,
    Answered-live unmarshal whole total (delivering piece) reading m h.client _ refl answer,
  )
  Step-Flows (Step.client_fails {piece = piece} {m = m} {h = h} e) (x, text, ahead, over, answer) =
      (
        concat piece x,
        ap (λ s. concat s (concat piece x)) (append-nil h.client)
            ∙ sym (append_assoc h.client piece x)
            ∙ text,
        λ live. cc,
        λ q. cc,
        Answered-live unmarshal whole total (delivering piece) (finished (some (client_failed e))) m
            h.client h.client refl answer,
      )
  Step-Flows (Step.interrupts {r = r} {h = h} e) (x, text, ahead, over, answer) = (
    x,
    text,
    λ live.
        Ahead-shut unmarshal whole total r h.write_end h.read_end _ _ h.result x (ahead live)
          (first_error-ne-none h.read_end _),
    over,
    tt,
  )
  Step-Flows (Step.copy_ends {r = r} {e = e} {h = h}) (x, text, ahead, over, answer) = (
    x,
    text,
    λ live. cc,
    over,
    (refl, λ q. Done-whole unmarshal whole total r h.client h.result x text (over q)),
  )
  Step-Flows (Step.drains {h = h}) (x, text, ahead, over, answer) =
      (x, text, ahead, over, (refl, λ q. cc))
  Step-Flows (Step.cancels e) p = p

  Run-Flows :
      {n : ℕ} {s t : State}
      → Run unmarshal session_id body upstream n s t
      → Flows unmarshal whole total s
      → Flows unmarshal whole total t
  Run-Flows Run.stay p = p
  Run-Flows (Run.then run step) p = Step-Flows step (Run-Flows run p)

module _ (unmarshal : String → Result String StreamChunk) (session_id body : String) where
  start-Flows :
      (now : ℕ) (pool : ConnectionManager) (lines : List String)
      → Flows unmarshal
          (render lines)
          (tally unmarshal lines no_tokens)
          (start session_id body now pool lines)
  unfolding start
  start-Flows now pool lines = (render lines, nil-append _, λ live. (refl, refl, λ e. refl), tt, tt)

module _ (unmarshal : String → Result String StreamChunk) (session_id body : String)
    {upstream : UpstreamEnd} where
  -- Whatever the order of the steps, the client has at any time a beginning of the forwarded text of the
  -- upstream's lines: nothing is lost, repeated or reordered.
  pub Run-client :
      {n : ℕ} {r : Reader} {c : Copier} {m : Caller} {h : Shared} (now : ℕ)
      (pool : ConnectionManager) (lines : List String)
      → Run unmarshal session_id body upstream n
          (start session_id body now pool lines)
          (state r c m h)
      → (more : String) × (concat h.client more ≡ render lines)
  Run-client {c = c} {h = h} now pool lines run =
      let (x, text, ahead, over, answer) =
        Run-Flows unmarshal _ _ session_id body run
          (start-Flows unmarshal session_id body now pool lines) in
      (concat (held c) x, sym (append_assoc h.client (held c) x) ∙ text)

  -- If `ProxyStream` returns without an error, in any schedule, then the client has the whole forwarded
  -- text, and the counts that it returns are those of all lines.
  pub Run-returned :
      {n : ℕ} {r : Reader} {c : Copier} {result : StreamResult} {h : Shared} (now : ℕ)
      (pool : ConnectionManager) (lines : List String)
      → Run unmarshal session_id body upstream n
          (start session_id body now pool lines)
          (state r c (returned result none) h)
      → (h.client ≡ render lines) × (result ≡ tally unmarshal lines no_tokens)
  Run-returned now pool lines run =
      let (x, text, ahead, over, answer) =
        Run-Flows unmarshal _ _ session_id body run
          (start-Flows unmarshal session_id body now pool lines) in
      ((answer.1 refl).1, (answer.1 refl).0)
