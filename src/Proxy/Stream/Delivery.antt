-- ===== src/Proxy/Stream/Delivery.antt =====
-- What is still to come of a stream in each state: the text that is not forwarded yet, and its counts.
use Prim.Native.String.{◌++◌ as concat}
use text.Mathlib.TextLemmas.{nil-append, cons-append}
use llmapi_gate_way.Common.Result.{Result}
use llmapi_gate_way.Handler.Gateway.{StreamResult}
use llmapi_gate_way.Proxy.Stream.{StreamChunk, Event, following, render, tally}
use llmapi_gate_way.Proxy.Stream.Machine.{
  StreamError, Reader, scanning, writing, ended, Copier, reading, delivering, finished, Caller,
  waiting, draining, returned, State, state, first_error, error_of, take_bytes, drop_bytes,
}
use llmapi_gate_way.Common.{
  ℕ, zero, suc, String, ◌≡◌, refl, ap, ◌∙◌, ◌≢◌, Bool, true, false, Option, none, some, List,
  some_inj,
}

pub take_bytes-drop_bytes : (n : ℕ) (s : String) → concat (take_bytes n s) (drop_bytes n s) ≡ s
unfolding take_bytes drop_bytes
take_bytes-drop_bytes zero s = nil-append s
take_bytes-drop_bytes (suc n) String.[] = nil-append ""
take_bytes-drop_bytes (suc n) (String.◌∷◌ c s) =
    cons-append c (take_bytes n s) (drop_bytes n s) ∙ ap (String.◌∷◌ c) (take_bytes-drop_bytes n s)

abbrev pub Ends : Type 0
Ends = Option (Option StreamError)

-- The writer's end is open as long as the reader's end is.
abbrev pub Untouched : Ends → Ends → Type 0
Untouched w r = r ≡ none → w ≡ none

pub fresh :
    (w r : Ends) (e : Option StreamError)
    → Untouched w r
    → r ≡ none
    → first_error w e ≡ some none
    → e ≡ none
fresh none r e untouched open_yet q = some_inj q
fresh (some held) r e untouched open_yet q = cc (untouched open_yet)

abbrev pub held : Copier → String
held reading = ""
held (delivering piece) = piece
held (finished e) = ""

abbrev pub is_live : Copier → Bool
is_live reading = true
is_live (delivering piece) = true
is_live (finished e) = false

module _ (unmarshal : String → Result String StreamChunk) (whole : String)
    (total : StreamResult) where
  -- The text `x` that the reader has still to forward, with the counts of what comes.
  abbrev pub Ahead : Reader → Ends → Ends → StreamResult → String → Type 0
  Ahead (scanning rest) w r result x =
      (x ≡ render rest) × (tally unmarshal rest result ≡ total) × Untouched w r
  Ahead (writing t event rest) w r result x =
      (x ≡ concat t (following event (render rest) ""))
      × (following event (tally unmarshal rest result) result ≡ total)
      × Untouched w r
  Ahead ended w r result x = r ≡ none → w ≡ some none → (x ≡ "") × (result ≡ total)

  abbrev pub Done : Reader → StreamResult → String → Type 0
  Done (scanning rest) result x = ⊥
  Done (writing t event rest) result x = ⊥
  Done ended result x = (x ≡ "") × (result ≡ total)

  -- A copier that ended without an error has seen everything.
  abbrev pub Ended : Copier → Reader → StreamResult → String → Type 0
  Ended reading r result x = Unit
  Ended (delivering piece) r result x = Unit
  Ended (finished e) r result x = e ≡ none → Done r result x

  -- The caller returned after the copier ended; without an error it had everything.
  abbrev pub Answered : Copier → Caller → String → Type 0
  Answered c waiting client = Unit
  Answered c draining client = Unit
  Answered c (returned result e) client =
      (is_live c ≡ false) × (e ≡ none → (result ≡ total) × (client ≡ whole))

  abbrev pub Flows : State → Type 0
  Flows (state r c m h) =
      (x : String) × (concat (concat h.client (held c)) x ≡ whole)
      × (is_live c ≡ true → Ahead r h.write_end h.read_end h.result x)
      × Ended c r h.result x
      × Answered c m h.client

  -- The lemmas on the parts.
  pub Ended-scanning :
      (c : Copier) (rest : List String) (result result' : StreamResult) (r : Reader) (x : String)
      → Ended c (scanning rest) result x
      → Ended c r result' x
  Ended-scanning reading rest result result' r x p = tt
  Ended-scanning (delivering piece) rest result result' r x p = tt
  Ended-scanning (finished e) rest result result' r x p = λ q. absurd (p q)

  pub Ended-writing :
      (c : Copier) (t : String) (event : Event) (rest : List String) (result result' : StreamResult)
      (r : Reader) (x : String)
      → Ended c (writing t event rest) result x
      → Ended c r result' x
  Ended-writing reading t event rest result result' r x p = tt
  Ended-writing (delivering piece) t event rest result result' r x p = tt
  Ended-writing (finished e) t event rest result result' r x p = λ q. absurd (p q)

  pub Answered-live :
      (c c' : Copier) (m : Caller) (client client' : String)
      → is_live c ≡ true
      → Answered c m client
      → Answered c' m client'
  Answered-live c c' waiting client client' live p = tt
  Answered-live c c' draining client client' live p = tt
  Answered-live c c' (returned result e) client client' live (dead, p) = cc

  -- Once the reader's end of the pipe is closed, nothing more is promised.
  pub Ahead-shut :
      (r : Reader) (w v w' v' : Ends) (result : StreamResult) (x : String)
      → Ahead r w v result x
      → v' ≢ none
      → Ahead r w' v' result x
  Ahead-shut (scanning rest) w v w' v' result x (p, q, u) shut = (p, q, λ e. absurd (shut e))
  Ahead-shut (writing t event rest) w v w' v' result x (p, q, u) shut = (p, q, λ e. absurd (shut e))
  Ahead-shut ended w v w' v' result x p shut = λ e. absurd (shut e)

  -- A read that gives `io.EOF` has seen everything.
  pub Ahead-Done :
      (r : Reader) (w v : Ends) (result : StreamResult) (x : String)
      → Ahead r w v result x
      → error_of v w ≡ none
      → Done r result x
  Ahead-Done (scanning rest) (some e) none result x (p, q, u) h = cc (u refl)
  Ahead-Done (writing t event rest) (some e) none result x (p, q, u) h = cc (u refl)
  Ahead-Done ended (some e) none result x p h = p refl (ap some h)
  Ahead-Done r none none result x p h = cc
  Ahead-Done r w (some e) result x p h = cc
