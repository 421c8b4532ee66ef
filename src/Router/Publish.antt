-- ===== src/Router/Publish.antt =====
-- internal/router/manager.go: `UpdateRule`, which stores a rule in Redis and publishes it, and the
-- reading of stored rules in `LoadRules`. Redis is an argument.
mod Tests
use Prim.Native.String.{◌++◌ as concat}
use llmapi_gate_way.Common.{
  ℕ, zero, suc, ◌+◌, ◌-◌, ◌*◌, ◌/◌, ◌%◌, ◌≤◌, ◌<◌, min, String, ◌≡◌, refl, sym, ap, ◌∙◌, ◌≢◌, ◌↔◌,
  ◌⊎◌, inl, inr, Bool, true, false, not, ◌&&◌, ◌||◌, Option, none, some, List, [], ◌∷◌, ◌++◌, map,
  arith, ◌==◌, eq_iff, eq_refl, eq_false_of_ne, ne_of_eq_false, some_inj, ltb, leb, eqb,
  if◌then◌else◌, ltb→lt, lt→ltb, eqb_iff, Bool-cases, Option-cases, length, get_elem?, modify,
  replicate, length-append, length-modify, length-replicate, length-map, get_elem?-in_range, All,
  keep, List-cases, eqb_pos,
}
use llmapi_gate_way.Common.Int.{
  ℤ, pos, negsuc, pos_part, neg_part, sub_ℕ, ◌+ℤ◌, ◌-ℤ◌, ◌≤ℤ◌, ltb_ℤ, leb_ℤ, +ℤ_parts, -ℤ_parts,
  eq_of_parts, int_laws,
}
use llmapi_gate_way.Common.Assoc.{
  Assoc, lookup, insert, delete, lookup-insert, lookup-delete, lookup-insert_self, lookup-insert_ne,
  assoc_laws,
}
use llmapi_gate_way.Common.Time.{Time, zero_time, at, second, max_duration, saturate, since, unix}
use llmapi_gate_way.Common.Float.{Float64}
use llmapi_gate_way.Common.Result.{Result, done, failed}
use llmapi_gate_way.Adapter.Types.{Json}
use llmapi_gate_way.Quota.Manager.{bytes}
use llmapi_gate_way.Router.Types.{RouteRule, RouteUpdateEvent}
use llmapi_gate_way.Router.Manager.{RouteManager, load_rules, apply_update}

-- SET, GET, KEYS with the pattern of the routes, and PUBLISH, whose error is dropped.
pub record RouteStore (S : Type 0) : Type 0 where
  pub set : S → String → String → Result String S
  pub get : S → String → Result String (Option String)
  pub keys : S → Result String (List String)
  pub publish : S → String → String → S

pub data UpdateError : Type 0 where
  not_marshalled : String → UpdateError
  not_stored : String → UpdateError

abbrev pub route_key : String → String
route_key model_id = concat "route:" model_id

abbrev pub or_none : {A : Type 0} → Result String A → Option A
or_none (failed e) = none
or_none (done a) = some a

module _ {S : Type 0} (r : RouteStore S) (rules : Json RouteRule) where
  -- The rule of one key in the loop of `LoadRules`.
  unfoldable pub read_rule : S → String → Option RouteRule
  read_rule s key = elim (r.get s key) [
    | failed e ↦ none
    | done none ↦ none
    | done (some text) ↦ or_none (rules.unmarshal text)
  ]

  -- `LoadRules`
  unfoldable pub load_stored : S → RouteManager → RouteManager × Option String
  load_stored s m = elim (r.keys s) [
    | failed e ↦ (m, some e)
    | done keys ↦ (load_rules m (map (read_rule s) keys), none)
  ]

  module _ (events : Json RouteUpdateEvent) where
    -- `UpdateRule`
    unfoldable pub update_rule : ℕ → S → RouteRule → S × Result UpdateError (Unit {0})
    update_rule now s rule =
        let stamped = record rule { updated_at = at now } in
        elim (rules.marshal stamped) [
          | failed e ↦ (s, failed (not_marshalled e))
          | done text ↦ elim (r.set s (route_key rule.model_id) text) [
            | failed e ↦ (s, failed (not_stored e))
            | done s' ↦ (
              r.publish s' "route:updates" (
                  bytes
                    (events.marshal (record { model_id = rule.model_id; rule = some stamped }))),
              done tt,
            )
          ]
        ]

    -- What a subscriber does with a payload.
    unfoldable pub receive_update : String → RouteManager → RouteManager
    receive_update payload m = apply_update m (or_none (events.unmarshal payload))
