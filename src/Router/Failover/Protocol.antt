-- ===== src/Router/Failover/Protocol.antt =====
-- What `ExecuteWithFailover` of internal/router/failover.go asks of the breaker and the executor.
use llmapi_gate_way.Common.{
  String, ◌≡◌, inl, inr, Bool, true, false, Option, List, Bool-cases, Option-cases,
}
use llmapi_gate_way.Common.Assoc.{Assoc}
use llmapi_gate_way.Router.Types.{ApiKeyConfig, RouteRule, Outcome, ok, err, panicked}
use llmapi_gate_way.Router.Manager.{RouteManager}
use llmapi_gate_way.Router.Failover.{
  FailoverError, World, State, attempt, try_key, succeeded, execute_with_failover,
}
use llmapi_gate_way.Router.Failover.Keeps.{IsCandidate, execute_with_failover-Kept}
use llmapi_gate_way.Router.Failover.Trace.{
  Event, traced, Tries, start_here, refusal, failure, Succeeds, success,
}

module _ {S E : Type 0} (w : World S E) (rules : Assoc (Option RouteRule))
    (start : List Event) where
  abbrev pub Log : Bool → List Event → Type 0
  Log true log = Succeeds (IsCandidate rules) start log
  Log false log = Tries (IsCandidate rules) start log

  try_key-Log :
      (k : ApiKeyConfig) (s : S) (log : List Event)
      → IsCandidate rules k.key
      → Log false log
      → Log
          (succeeded (traced w) (try_key (traced w) k (s, log)).1)
          (try_key (traced w) k (s, log)).0.1
  unfolding try_key attempt
  try_key-Log k s log c h = elim (Bool-cases (w.allow_request k.key s).1) [
    | inl let_in ↦ elim (Option-cases (w.execute k.key (w.allow_request k.key s).0).1) [
      | inl fine ↦ rw (let_in, attempt, fine) (rw (traced, let_in, fine) (success k.key c h))
      | inr (e, bad) ↦ rw (let_in, attempt, bad) (rw (traced, let_in, bad) (failure k.key c h))
    ]
    | inr refused ↦ rw refused (refusal k.key h)
  ]

  -- Between two tries: the rules are as they were, and no request has succeeded.
  abbrev pub Ready : State (traced w) → Type 0
  Ready st = (st.0.rules ≡ rules) × Log false st.1.1

  -- How a level ends: the rules are as they were, and the log says whether a request succeeded.
  abbrev pub Ends : State (traced w) × Outcome (FailoverError E) (Unit {0}) → Type 0
  Ends (st, ok u) = (st.0.rules ≡ rules) × Log true st.1.1
  Ends (st, err e) = Ready st
  Ends (st, panicked) = Ready st

  -- Failover asks the breaker before each request and never sends one with a key that it refuses;
  -- it sends only with the keys of active entries in the rule table; and after each request it
  -- reports the result, once. It returns without an error exactly when the last request succeeded:
  -- no request follows one that succeeds, and all requests before it failed. If it returns an error
  -- or panics, every request failed. The rule table stays as it was.
  pub execute_with_failover-Ends :
      (model_id : String) (m : RouteManager) (s : S)
      → m.rules ≡ rules
      → Ends (execute_with_failover (traced w) model_id (m, (s, start)))
  execute_with_failover-Ends model_id m s same =
      execute_with_failover-Kept (traced w) rules (λ b t. Log b t.1)
        (λ k t c h. try_key-Log k t.0 t.1 c h) (λ t h. h) model_id m (s, start) same start_here
