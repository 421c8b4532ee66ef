-- ===== src/Config/Valid.antt =====
-- What a configuration that `Load` of internal/config/config.go returns satisfies.
use llmapi_gate_way.Common.{
  String, ◌≡◌, refl, sym, ap, ◌≢◌, ◌↔◌, inl, inr, Bool, true, false, ◌||◌, Option, List, [], ◌∷◌,
  arith, ◌==◌, eq_false_of_ne, ne_of_eq_false, eqb, if◌then◌else◌, Bool-cases, Option-cases, length,
  eqb_pos,
}
use llmapi_gate_way.Common.Int.{ℤ, pos, ◌≤ℤ◌, ltb_ℤ, leb_ℤ}
use llmapi_gate_way.Common.Float.{Float64}
use llmapi_gate_way.Common.Result.{Result, done, failed, bind-done, done_inj}
use llmapi_gate_way.Config.Types.{Config, ConfigError, read_failed, parse_failed}
use llmapi_gate_way.Config.Load.{
  Outside, override, override_int, override_brokers, apply_env_overrides, validate, fail_as, load,
}

-- The conditions on a configuration. The comparisons of the threshold are Go's, which are all false
-- on a NaN.
abbrev pub IsValid : (fl : Float64) → Config fl.F → Type 0
IsValid fl cfg =
    ((pos 1 ≤ℤ cfg.server.port) × (cfg.server.port ≤ℤ pos 65535))
    × (cfg.redis.addr ≢ "")
    × (cfg.postgres.host ≢ "")
    × (cfg.postgres.database ≢ "")
    × (cfg.kafka.brokers ≢ [])
    × (cfg.kafka.topic ≢ "")
    × ((fl.le cfg.circuit_breaker.error_threshold (fl.of_int (pos 0)) ≡ false)
        × (fl.lt (fl.of_int (pos 1)) cfg.circuit_breaker.error_threshold ≡ false))
    × (pos 1 ≤ℤ cfg.rate_limit.user.capacity)
    × (pos 1 ≤ℤ cfg.rate_limit.app.capacity)
    × (pos 1 ≤ℤ cfg.rate_limit.model.capacity)

-- A guard in front of the rest of the tests.
pass :
    {b : Bool} (e : ConfigError) {rest : Result ConfigError (Unit {0})}
    → (if b then failed e else rest) ≡ done tt
    → (b ≡ false) × (rest ≡ done tt)
pass {b = true} e h = cc
pass {b = false} e h = (refl, h)

stop :
    {b : Bool} (e : ConfigError) {rest : Result ConfigError (Unit {0})}
    → b ≡ false
    → rest ≡ done tt
    → (if b then failed e else rest) ≡ done tt
stop e off h = rw off h

port-ok :
    (p : ℤ) → ((leb_ℤ p (pos 0) || ltb_ℤ (pos 65535) p) ≡ false) ↔ ((pos 1 ≤ℤ p) × (p ≤ℤ pos 65535))
port-ok p = ground arith

positive : (n : ℤ) → (leb_ℤ n (pos 0) ≡ false) ↔ (pos 1 ≤ℤ n)
positive n = ground arith

or-false : (a b : Bool) → ((a || b) ≡ false) ↔ ((a ≡ false) × (b ≡ false))
or-false a b = ground arith

nonempty : (xs : List String) → (eqb (length xs) 0 ≡ false) ↔ (xs ≢ [])
nonempty [] = (λ h. cc, λ h. absurd (h refl))
nonempty (x ∷ xs) = (λ h e. cc, λ h. eqb_pos (length (x ∷ xs)) (omega arith))

text-ok : (s : String) → ((s == "") ≡ false) ↔ (s ≢ "")
text-ok s = (ne_of_eq_false s "", eq_false_of_ne s "")

-- A configuration passes the validation exactly when it satisfies the conditions.
pub validate-IsValid :
    (fl : Float64) (cfg : Config fl.F) → (validate fl cfg ≡ done tt) ↔ IsValid fl cfg
unfolding validate
validate-IsValid fl cfg = (
  λ h.
      let (port, h1) = pass _ h in
      let (addr, h2) = pass _ h1 in
      let (host, h3) = pass _ h2 in
      let (database, h4) = pass _ h3 in
      let (brokers, h5) = pass _ h4 in
      let (topic, h6) = pass _ h5 in
      let (threshold, h7) = pass _ h6 in
      let (user, h8) = pass _ h7 in
      let (app, h9) = pass _ h8 in
      let (model, h10) = pass _ h9 in
      (
        (port-ok cfg.server.port).0 port,
        (text-ok cfg.redis.addr).0 addr,
        (text-ok cfg.postgres.host).0 host,
        (text-ok cfg.postgres.database).0 database,
        (nonempty cfg.kafka.brokers).0 brokers,
        (text-ok cfg.kafka.topic).0 topic,
        (or-false _ _).0 threshold,
        (positive cfg.rate_limit.user.capacity).0 user,
        (positive cfg.rate_limit.app.capacity).0 app,
        (positive cfg.rate_limit.model.capacity).0 model,
      ),
  λ (port, addr, host, database, brokers, topic, threshold, user, app, model).
      stop _ ((port-ok cfg.server.port).1 port) (
        stop _ ((text-ok cfg.redis.addr).1 addr) (
          stop _ ((text-ok cfg.postgres.host).1 host) (
            stop _ ((text-ok cfg.postgres.database).1 database) (
              stop _ ((nonempty cfg.kafka.brokers).1 brokers) (
                stop _ ((text-ok cfg.kafka.topic).1 topic) (
                  stop _ ((or-false _ _).1 threshold) (
                    stop _ ((positive cfg.rate_limit.user.capacity).1 user) (
                      stop _ ((positive cfg.rate_limit.app.capacity).1 app)
                        (stop _ ((positive cfg.rate_limit.model.capacity).1 model) refl))))))))),
)

fail_as-done {ℓ} :
    {A : Type ℓ} {a : A} (wrap : String → ConfigError) (r : Result String A)
    → fail_as wrap r ≡ done a
    → r ≡ done a
fail_as-done wrap (done b) h = ap done (done_inj h)
fail_as-done wrap (failed e) h = cc

-- A configuration that `Load` returns is valid, and it is the one that the file holds with the
-- environment's overrides.
pub load-IsValid :
    (fl : Float64) (out : Outside fl.F) (path : String) (cfg : Config fl.F)
    → load fl out path ≡ done cfg
    → IsValid fl cfg
      × ((text : String) × (parsed : Config fl.F) × (out.read_file path ≡ done text)
          × (out.parse_yaml text ≡ done parsed)
          × (cfg ≡ apply_env_overrides out parsed))
unfolding load
load-IsValid fl out path cfg h =
    let (text, e1, h1) = bind-done (fail_as read_failed (out.read_file path)) _ h in
    let (parsed, e2, h2) = bind-done (fail_as parse_failed (out.parse_yaml text)) _ h1 in
    let (ok, e3, h3) = bind-done (validate fl (apply_env_overrides out parsed)) _ h2 in
    let same = done_inj h3 in
    (
      rw same at ((validate-IsValid fl (apply_env_overrides out parsed)).0 e3),
      (
        text,
        parsed,
        fail_as-done read_failed (out.read_file path) e1,
        fail_as-done parse_failed (out.parse_yaml text) e2,
        sym same,
      ),
    )

override_idem : (v x : String) → override v (override v x) ≡ override v x
unfolding override
override_idem v x = elim (Bool-cases (v == "")) [ inl h ↦ rw h refl | inr h ↦ rw h refl ]

override_int_idem :
    (scan : String → Option ℤ) (v : String) (x : ℤ)
    → override_int scan v (override_int scan v x) ≡ override_int scan v x
unfolding override_int
override_int_idem scan v x = elim (Bool-cases (v == "")) [
  | inl h ↦ rw h refl
  | inr h ↦ elim (Option-cases (scan v)) [
    | inl none_found ↦ rw (h, none_found) refl
    | inr (n, found) ↦ rw (h, found) refl
  ]
]

override_brokers_idem :
    (v : String) (x : List String)
    → override_brokers v (override_brokers v x) ≡ override_brokers v x
unfolding override_brokers
override_brokers_idem v x = elim (Bool-cases (v == "")) [ inl h ↦ rw h refl | inr h ↦ rw h refl ]

-- Applying the overrides once more changes nothing.
pub apply_env_overrides_idem :
    {F : Type 0} (out : Outside F) (cfg : Config F)
    → apply_env_overrides out (apply_env_overrides out cfg) ≡ apply_env_overrides out cfg
unfolding apply_env_overrides
apply_env_overrides_idem out cfg = simp (override_idem, override_int_idem, override_brokers_idem)

-- Without the variables the configuration stays as the file has it.
pub apply_env_overrides-unset :
    {F : Type 0} (out : Outside F) (cfg : Config F)
    → ((name : String) → out.getenv name ≡ "")
    → apply_env_overrides out cfg ≡ cfg
unfolding apply_env_overrides override override_int override_brokers
apply_env_overrides-unset out cfg unset = simp unset
