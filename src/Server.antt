-- ===== src/Server.antt =====
-- internal/server/server.go: the HTTP server. The router of gin is the parameter `Gin`: an engine of
-- type `E` holds handlers of type `H`. Log lines are left out.
pub mod Routes
pub mod Memory
mod Tests
use Prim.Native.String.{◌++◌ as concat}
use Prim.Native.Char.{Char, code}
use llmapi_gate_way.Common.Decimal.{int_text}
use llmapi_gate_way.Common.{
  ℕ, zero, suc, ◌+◌, ◌-◌, ◌*◌, ◌/◌, ◌%◌, ◌≤◌, ◌<◌, min, String, ◌≡◌, refl, sym, ap, ◌∙◌, ◌≢◌, ◌↔◌,
  ◌⊎◌, inl, inr, Bool, true, false, not, ◌&&◌, ◌||◌, Option, none, some, List, [], ◌∷◌, ◌++◌, map,
  arith, ◌==◌, eq_iff, eq_refl, eq_false_of_ne, ne_of_eq_false, some_inj, ltb, leb, eqb,
  if◌then◌else◌, ltb→lt, lt→ltb, eqb_iff, Bool-cases, Option-cases, length, get_elem?, modify,
  replicate, length-append, length-modify, length-replicate, length-map, get_elem?-in_range, All,
  keep, List-cases, eqb_pos,
}
use llmapi_gate_way.Common.Int.{
  ℤ, pos, negsuc, pos_part, neg_part, sub_ℕ, ◌+ℤ◌, ◌-ℤ◌, ◌≤ℤ◌, ltb_ℤ, leb_ℤ, +ℤ_parts, -ℤ_parts,
  eq_of_parts, int_laws,
}
use llmapi_gate_way.Common.Assoc.{
  Assoc, lookup, insert, delete, lookup-insert, lookup-delete, lookup-insert_self, lookup-insert_ne,
  assoc_laws,
}
use llmapi_gate_way.Common.Time.{Time, zero_time, at, second, max_duration, saturate, since, unix}
use llmapi_gate_way.Common.Float.{Float64}

-- The router of gin. Registering a route may panic, which is none.
pub record Gin (E H : Type 0) : Type 0 where
  pub new : E
  pub handle : String → String → H → E → Option E
  pub find : E → String → String → Option H

-- The methods that `RegisterRoute` knows.
abbrev pub is_supported : String → Bool
is_supported method =
    (method == "GET")
    || ((method == "POST") || ((method == "PUT") || ((method == "DELETE") || (method == "PATCH"))))

-- Neither the colon, the asterisk nor the dot, which mean something in a path.
abbrev is_letter : Char → Bool
is_letter c = not (eqb (code c) 58) && (not (eqb (code c) 42) && not (eqb (code c) 46))

-- The rest of a path, after a slash or not.
unfoldable pub static_from : Bool → String → Bool
static_from after_slash String.[] = not after_slash
static_from after_slash (String.◌∷◌ c s) =
    let slash = static_from true s in
    let letter = static_from false s in
    if eqb (code c) 47 then not after_slash && slash else is_letter c && letter

-- A path of one part or more, each after a slash and none of them empty, without parameters.
unfoldable pub is_static : String → Bool
is_static String.[] = false
is_static (String.◌∷◌ c s) = eqb (code c) 47 && static_from true s

-- An engine that was made by registering handlers for such paths only.
pub data IsStatic {E H : Type 0} (gin : Gin E H) : E → Type 0 where
  no_routes : IsStatic gin gin.new
  one_route :
      (method path : String) (h : H) {e e' : E}
      → is_supported method ≡ true
      → is_static path ≡ true
      → gin.handle method path h e ≡ some e'
      → IsStatic gin e
      → IsStatic gin e'

-- What gin's documentation says of such an engine, for requests with such a path: a route that is
-- registered once is found by its method and its path.
pub record GinLaws {E H : Type 0} (gin : Gin E H) : Type 0 where
  pub find-new : (method path : String) → gin.find gin.new method path ≡ none
  pub handle-fresh :
      (method path : String) (h : H) (e : E)
      → IsStatic gin e
      → is_supported method ≡ true
      → is_static path ≡ true
      → gin.find e method path ≡ none
      → (e' : E) × (gin.handle method path h e ≡ some e')
  pub find-handle :
      (method path : String) (h : H) (e e' : E) (other_method other_path : String)
      → IsStatic gin e
      → is_supported method ≡ true
      → is_static path ≡ true
      → is_static other_path ≡ true
      → gin.handle method path h e ≡ some e'
      → gin.find e' other_method other_path ≡ (
          if (method == other_method) && (path == other_path)
          then some h
          else gin.find e other_method other_path)

pub record Server (E : Type 0) : Type 0 where
  pub engine : E
  pub addr : String
  pub read_timeout : ℤ
  pub write_timeout : ℤ

-- The answers of `RegisterHealthCheck`.
pub record HealthHandlers (H : Type 0) : Type 0 where
  pub status_ok : H
  pub status_ready : H
  pub metrics : H

module _ {E H : Type 0} (gin : Gin E H) where
  unfoldable pub new_server : String → ℤ → ℤ → ℤ → Server E
  new_server host port read_timeout write_timeout = record {
    engine = gin.new;
    addr = concat host (concat ":" (int_text port));
    read_timeout = read_timeout;
    write_timeout = write_timeout;
  }

  abbrev pub with_engine : Server E → Option E → Option (Server E)
  with_engine s none = none
  with_engine s (some e) = some (record s { engine = e })

  -- `s.engine.GET(path, handler)` and its like.
  abbrev pub route : String → String → H → Server E → Option (Server E)
  route method path h s = with_engine s (gin.handle method path h s.engine)

  unfoldable pub register_route : String → String → H → Server E → Option (Server E)
  register_route method path h s =
      if method == "GET"
      then route "GET" path h s
      else if method == "POST"
      then route "POST" path h s
      else if method == "PUT"
      then route "PUT" path h s
      else if method == "DELETE"
      then route "DELETE" path h s
      else if method == "PATCH"
      then route "PATCH" path h s
      else some s

  abbrev pub and_then : Option (Server E) → (Server E → Option (Server E)) → Option (Server E)
  and_then none f = none
  and_then (some s) f = f s

  unfoldable pub register_health_check : HealthHandlers H → Server E → Option (Server E)
  register_health_check health s = and_then (route "GET" "/health" health.status_ok s) (λ s1.
      and_then (route "GET" "/ready" health.status_ready s1)
        (λ s2. route "GET" "/metrics" health.metrics s2))

-- `Start`: the server listens in a goroutine of its own, whose error is only logged.
unfoldable pub start_server : {E W : Type 0} → (String → W → W) → Server E → W → W × Option String
start_server listen s w = (listen s.addr w, none)
