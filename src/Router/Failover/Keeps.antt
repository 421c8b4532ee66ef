-- ===== src/Router/Failover/Keeps.antt =====
-- What every try of internal/router/failover.go keeps, its whole run keeps.
use mathlib.Core.List.{Memᴰ}
use llmapi_gate_way.Common.{
  String, ◌≡◌, refl, ◌∙◌, inl, inr, Bool, true, false, Option, none, some, List, [], ◌∷◌, arith,
  eq_iff, if◌then◌else◌, Bool-cases,
}
use llmapi_gate_way.Common.Assoc.{Assoc, lookup}
use llmapi_gate_way.Router.Types.{
  Outcome-cases, key_status_active, ApiKeyConfig, FallbackConfig, RouteRule, Outcome, ok, err,
  panicked, ◌>>=◌, deref,
}
use llmapi_gate_way.Router.Manager.{RouteManager, get_rule, is_active}
use llmapi_gate_way.Router.Failover.{
  mask_key, FailoverError, circuit_open, execution, backup_keys_failed, World, State, select,
  try_key, try_primary_key, succeeded, backup_loop, backups, with_rule, try_backup_keys, chain_loop,
  try_alternative_models, try_fallback_model, or_else, execute_with_failover,
}
use llmapi_gate_way.Router.Manager.Selection.{select_api_key-active}

-- The key belongs to an active entry of some rule of the table.
abbrev pub IsCandidate : Assoc (Option RouteRule) → String → Type 0
IsCandidate rules key =
    (model_id : String) × (rule : RouteRule) × (k : ApiKeyConfig) × (lookup model_id rules
      ≡ some (some rule))
    × Memᴰ k rule.api_keys
    × (k.status ≡ key_status_active)
    × (k.key ≡ key)

get_rule-lookup :
    (m : RouteManager) (model_id : String) (rule : RouteRule)
    → (get_rule m model_id >>= deref) ≡ ok rule
    → lookup model_id m.rules ≡ some (some rule)
unfolding get_rule
get_rule-lookup m model_id rule found = ground arith

backups-Memᴰ : (ks : List ApiKeyConfig) {k : ApiKeyConfig} → Memᴰ k (backups ks) → Memᴰ k ks
backups-Memᴰ [] m = elim m [ ]
backups-Memᴰ (k ∷ ks) m = Memᴰ.tail m

module _ {S E : Type 0} (w : World S E) (rules : Assoc (Option RouteRule))
    (Holds : Bool → S → Type 0) where
  -- Between two tries: the rules are as they were, and no request has succeeded.
  abbrev pub Waiting : State w → Type 0
  Waiting st = (st.0.rules ≡ rules) × Holds false st.1

  -- How a level ends: the rules are as they were, and the log says whether a request succeeded.
  abbrev pub Kept : State w × Outcome (FailoverError E) (Unit {0}) → Type 0
  Kept (st, ok u) = (st.0.rules ≡ rules) × Holds true st.1
  Kept (st, err e) = Waiting st
  Kept (st, panicked) = Waiting st

module _ {S E : Type 0} (w : World S E) (rules : Assoc (Option RouteRule))
    (Holds : Bool → S → Type 0)
    (tries : (k : ApiKeyConfig) (s : S)
      → IsCandidate rules k.key
      → Holds false s
      → Holds (succeeded w (try_key w k s).1) (try_key w k s).0)
    (draws : (s : S) → Holds false s → Holds false (w.rand s).0) where
  abbrev Ready : State w → Type 0
  Ready = Waiting w rules Holds

  abbrev Ends : State w × Outcome (FailoverError E) (Unit {0}) → Type 0
  Ends = Kept w rules Holds

  backup_loop-Holds :
      (ks : List ApiKeyConfig) (s : S)
      → ((k : ApiKeyConfig) → Memᴰ k ks → k.status ≡ key_status_active → IsCandidate rules k.key)
      → Holds false s
      → Holds (backup_loop w ks s).1 (backup_loop w ks s).0
  unfolding backup_loop
  backup_loop-Holds [] s c h = h
  backup_loop-Holds (k ∷ ks) s c h = elim (Bool-cases (is_active k)) [
    | inl active ↦
        let here : IsCandidate rules k.key =
          c k (Memᴰ.head refl) ((eq_iff k.status key_status_active).0 active) in
        rw (active, backup_loop)
          (elim (Bool-cases (succeeded w (try_key w k s).1)) [
            | inl done ↦ rw done (rw done at (tries k s here h))
            | inr on ↦
                rw on (
                  backup_loop-Holds ks _ (λ k' m. c k' (Memᴰ.tail m)) (rw on at (tries k s here h)))
          ])
    | inr passed ↦ rw (passed, backup_loop) (backup_loop-Holds ks s (λ k' m. c k' (Memᴰ.tail m)) h)
  ]

  select-Ready :
      (model_id : String) (st : State w)
      → Ready st
      → Ready (select w model_id st).0
        × ((k : ApiKeyConfig) → (select w model_id st).1 ≡ ok k → IsCandidate rules k.key)
  unfolding select
  select-Ready model_id (m, s) (same, h) =
      let (active, kept) = select_api_key-active m (w.rand s).1 model_id in
      (
        (kept ∙ same, draws s h),
        λ k chosen.
            let (rule, found, listed, on) = active k chosen in
            (model_id, rule, k, rw (← same) found, listed, on, refl),
      )

  chain_loop-Kept :
      (wanted : FallbackConfig → Bool) (e : FailoverError E) (fs : List FallbackConfig)
      (st : State w)
      → Ready st
      → Ends (chain_loop w wanted e fs st)
  unfolding chain_loop
  chain_loop-Kept wanted e [] st ready = ready
  chain_loop-Kept wanted e (f ∷ fs) st ready = elim (Bool-cases (wanted f)) [
    | inl on ↦
        let (ready', candidate) = select-Ready f.model_id st ready in
        elim (Outcome-cases (select w f.model_id st).1) [
          | inl (k, chosen) ↦
              let st' = (select w f.model_id st).0 in
              let logged = tries k st'.1 (candidate k chosen) ready'.1 in
              elim (Bool-cases (succeeded w (try_key w k st'.1).1)) [
                | inl done ↦ rw (on, chain_loop, chosen, done) (ready'.0, rw done at logged)
                | inr again ↦
                    rw (on, chain_loop, chosen, again)
                      (chain_loop-Kept wanted e fs _ (ready'.0, rw again at logged))
              ]
          | inr (inl (x, failed)) ↦
              rw (on, chain_loop, failed) (chain_loop-Kept wanted e fs _ ready')
          | inr (inr fault) ↦ rw (on, chain_loop, fault) ready'
        ]
    | inr off ↦ rw (off, chain_loop) (chain_loop-Kept wanted e fs st ready)
  ]

  primary_result :
      (k : ApiKeyConfig) (m : RouteManager) (t : S) (tried : Option (Option E))
      → m.rules ≡ rules
      → Holds (succeeded w tried) t
      → Ends (
        (m, t),
        elim tried [
          | none ↦ err (circuit_open (mask_key k.key))
          | some none ↦ ok tt
          | some (some e) ↦ err (execution e)
        ],
      )
  primary_result k m t none same h = (same, h)
  primary_result k m t (some none) same h = (same, h)
  primary_result k m t (some (some e)) same h = (same, h)

  try_primary_key-Kept :
      (model_id : String) (st : State w) → Ready st → Ends (try_primary_key w model_id st)
  unfolding try_primary_key
  try_primary_key-Kept model_id st ready =
      let (ready', candidate) = select-Ready model_id st ready in
      let st' = (select w model_id st).0 in
      elim (Outcome-cases (select w model_id st).1) [
        | inl (k, chosen) ↦
            rw (chosen, try_primary_key)
              (primary_result k st'.0 (try_key w k st'.1).0 (try_key w k st'.1).1 ready'.0
                (tries k st'.1 (candidate k chosen) ready'.1))
        | inr (inl (x, failed)) ↦ rw (failed, try_primary_key) ready'
        | inr (inr fault) ↦ rw (fault, try_primary_key) ready'
      ]

  with_rule-Kept :
      (model_id : String) (st : State w)
      (go : RouteRule → State w × Outcome (FailoverError E) (Unit {0}))
      → Ready st
      → ((rule : RouteRule) → lookup model_id st.0.rules ≡ some (some rule) → Ends (go rule))
      → Ends (with_rule w model_id st go)
  unfolding with_rule
  with_rule-Kept model_id st go ready each =
      elim (Outcome-cases (get_rule st.0 model_id >>= deref)) [
        | inl (rule, found) ↦
            rw (found, with_rule) (each rule (get_rule-lookup st.0 model_id rule found))
        | inr (inl (e, failed)) ↦ rw (failed, with_rule) ready
        | inr (inr fault) ↦ rw (fault, with_rule) ready
      ]

  backup_result :
      (m : RouteManager) (model_id : String) (r : S × Bool)
      → m.rules ≡ rules
      → Holds r.1 r.0
      → Ends ((m, r.0), if r.1 then ok tt else err (backup_keys_failed model_id))
  backup_result m model_id (t, true) same h = (same, h)
  backup_result m model_id (t, false) same h = (same, h)

  try_backup_keys-Kept :
      (model_id : String) (st : State w) → Ready st → Ends (try_backup_keys w model_id st)
  unfolding try_backup_keys
  try_backup_keys-Kept model_id (m, t) ready =
      with_rule-Kept model_id (m, t) _ ready
        λ rule found.
          let candidate : (k : ApiKeyConfig)
              → Memᴰ k (backups rule.api_keys)
              → k.status ≡ key_status_active
              → IsCandidate rules k.key =
            λ k listed on. (
              model_id,
              rule,
              k,
              rw (← ready.0) found,
              backups-Memᴰ rule.api_keys listed,
              on,
              refl,
            ) in
          backup_result m model_id (backup_loop w (backups rule.api_keys) t) ready.0
            (backup_loop-Holds (backups rule.api_keys) t candidate ready.1)

  or_else-Kept :
      (r : State w × Outcome (FailoverError E) (Unit {0}))
      (next : State w → State w × Outcome (FailoverError E) (Unit {0}))
      → Ends r
      → ((st : State w) → Ready st → Ends (next st))
      → Ends (or_else w r next)
  or_else-Kept (st, ok u) next h go = h
  or_else-Kept (st, err e) next h go = go st h
  or_else-Kept (st, panicked) next h go = h

  -- What holds of the world between tries holds at the end, or what a successful try gives.
  pub execute_with_failover-Kept :
      (model_id : String) (m : RouteManager) (s : S)
      → m.rules ≡ rules
      → Holds false s
      → Kept w rules Holds (execute_with_failover w model_id (m, s))
  unfolding execute_with_failover try_alternative_models try_fallback_model
  execute_with_failover-Kept model_id m s same h =
      or_else-Kept _ _
        (or_else-Kept _ _
          (or_else-Kept _ _ (try_primary_key-Kept model_id (m, s) (same, h))
            (try_backup_keys-Kept model_id))
          λ st ready.
            with_rule-Kept model_id st _ ready
              λ rule _. chain_loop-Kept _ _ rule.fallback_chain st ready)
        λ st ready.
          with_rule-Kept model_id st _ ready
            λ rule _. chain_loop-Kept _ _ rule.fallback_chain st ready
