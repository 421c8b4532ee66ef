-- ===== src/Router/Health/Recovery.antt =====
-- What a round of probes of internal/router/health.go does to the rule table.
use llmapi_gate_way.Common.{
  String, ◌≡◌, refl, inl, inr, Bool, true, false, ◌&&◌, Option, none, some, [], ◌∷◌, ◌==◌,
  if◌then◌else◌, Bool-cases, Option-cases, some_inj,
}
use llmapi_gate_way.Common.Assoc.{Assoc, lookup}
use llmapi_gate_way.Router.Types.{key_status_active, key_status_failed, ApiKeyConfig, RouteRule, ok}
use llmapi_gate_way.Router.Manager.{RouteManager}
use llmapi_gate_way.Router.Health.{
  Upstreams, alive, probe_answer, recover, probe_one, probe_rule, probe_rules, probe_all,
}
use llmapi_gate_way.Router.Manager.Selection.{bind-eq-ok, ok_inj}

-- A probe of the key gets an answer other than a server error.
abbrev pub answers : Upstreams → String → ApiKeyConfig → Bool
answers upstreams provider k = elim (probe_answer upstreams provider k.key) [
  | none ↦ false
  | some a ↦ alive a.status_code
]

-- A round of probes changes the status of the failed keys that get an answer other than a server
-- error, to active, and no other status; it never changes a key or a weight.
pub probe_one-status :
    (upstreams : Upstreams) (provider : String) (k : ApiKeyConfig)
    → ((probe_one upstreams provider k).status ≡ (
        if (k.status == key_status_failed) && answers upstreams provider k
        then key_status_active
        else k.status))
      × ((probe_one upstreams provider k).key ≡ k.key)
      × ((probe_one upstreams provider k).weight ≡ k.weight)
unfolding probe_one recover
probe_one-status upstreams provider k = elim (Bool-cases (k.status == key_status_failed)) [
  | inl failed ↦ elim (Option-cases (probe_answer upstreams provider k.key)) [
    | inl nothing ↦
        let silent : answers upstreams provider k ≡ false = rw (nothing, answers) refl in
        rw (failed, silent, probe_one, recover, nothing) (refl, refl, refl)
    | inr (a, got) ↦ elim (Bool-cases (alive a.status_code)) [
      | inl up ↦
          let answered : answers upstreams provider k ≡ true = rw (got, up, answers) refl in
          rw (failed, answered, probe_one, recover, got, up) (refl, refl, refl)
      | inr down ↦
          let answered : answers upstreams provider k ≡ false = rw (got, down, answers) refl in
          rw (failed, answered, probe_one, recover, got, down) (refl, refl, refl)
    ]
  ]
  | inr other ↦ rw (other, probe_one) (refl, refl, refl)
]

probe_rules-lookup :
    (upstreams : Upstreams) (rules probed : Assoc (Option RouteRule)) (model_id : String)
    (rule : RouteRule)
    → probe_rules upstreams rules ≡ ok probed
    → lookup model_id rules ≡ some (some rule)
    → lookup model_id probed ≡ some (some (probe_rule upstreams rule))
unfolding probe_rules lookup
probe_rules-lookup upstreams [] probed model_id rule h found = cc
probe_rules-lookup upstreams ((name, none) ∷ rest) probed model_id rule h found = cc
probe_rules-lookup upstreams ((name, some r) ∷ rest) probed model_id rule h found =
    let (later, e, same) = bind-eq-ok (probe_rules upstreams rest) _ h in
    elim (Bool-cases (name == model_id)) [
      | inl here ↦
          let is : r ≡ rule = some_inj (some_inj (rw here at found)) in
          rw (← ok_inj same, here, is) refl
      | inr on ↦
          rw (← ok_inj same, on)
            (probe_rules-lookup upstreams rest later model_id rule e (rw on at found))
    ]

-- After a round of probes that did not panic, the table has the same models, and each rule is as it
-- was but for its keys, each of which was treated as a probe of it says.
pub probe_all-lookup :
    (upstreams : Upstreams) (m m' : RouteManager) (model_id : String) (rule : RouteRule)
    → probe_all upstreams m ≡ ok m'
    → lookup model_id m.rules ≡ some (some rule)
    → lookup model_id m'.rules ≡ some (some (probe_rule upstreams rule))
unfolding probe_all
probe_all-lookup upstreams m m' model_id rule done found =
    let (probed, e, same) = bind-eq-ok (probe_rules upstreams m.rules) _ done in
    rw (← ok_inj same) (probe_rules-lookup upstreams m.rules probed model_id rule e found)
