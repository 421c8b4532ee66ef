-- ===== src/Router/Failover/Trace.antt =====
-- A world that also writes down what failover asks of it, and the shape of such a log. The log has
-- the newest event first.
use llmapi_gate_way.Common.{String, Bool, true, false, Option, none, some, List, ◌∷◌}
use llmapi_gate_way.Router.Failover.{World}

pub data Event : Type 0 where
  -- The breaker's answer for a key.
  asked : String → Bool → Event
  -- A request was sent with the key; did it succeed?
  sent : String → Bool → Event
  -- What the breaker was told.
  told_success : String → Event
  told_failure : String → Event

abbrev pub is_none {ℓ} : {A : Type ℓ} → Option A → Bool
is_none none = true
is_none (some a) = false

abbrev pub traced : {S E : Type 0} → World S E → World (S × List Event) E
traced w = record {
  allow_request = λ key t.
      let (s, allowed) = w.allow_request key t.0 in ((s, asked key allowed ∷ t.1), allowed);
  record_success = λ key t. (w.record_success key t.0, told_success key ∷ t.1);
  record_failure = λ key t. (w.record_failure key t.0, told_failure key ∷ t.1);
  execute = λ key t.
      let (s, result) = w.execute key t.0 in ((s, sent key (is_none result) ∷ t.1), result);
  rand = λ t. let (s, intn) = w.rand t.0 in ((s, t.1), intn);
}

-- The log grew by refusals and by failed requests only. A key that the breaker refuses is not used;
-- one that it lets through is used once, and its failure is reported. `P` holds of the keys used.
pub data Tries (P : String → Type 0) (start : List Event) : List Event → Type 0 where
  start_here : Tries P start start
  refusal :
      {log : List Event} (key : String) → Tries P start log → Tries P start (asked key false ∷ log)
  failure :
      {log : List Event} (key : String)
      → P key
      → Tries P start log
      → Tries P start (told_failure key ∷ sent key false ∷ asked key true ∷ log)

-- After such tries the last request succeeded, and that was reported.
pub data Succeeds (P : String → Type 0) (start : List Event) : List Event → Type 0 where
  success :
      {log : List Event} (key : String)
      → P key
      → Tries P start log
      → Succeeds P start (told_success key ∷ sent key true ∷ asked key true ∷ log)
