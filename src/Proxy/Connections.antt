-- ===== src/Proxy/Connections.antt =====
-- internal/proxy/connection.go: the pool of stream connections. A body is named by a text, and the
-- calls of `Body.Close` are written down, the last one first. The writer of a connection, which the
-- pool never uses, is left out.
pub mod Closed
mod Tests
use llmapi_gate_way.Common.{
  ℕ, zero, suc, ◌+◌, ◌-◌, ◌*◌, ◌/◌, ◌%◌, ◌≤◌, ◌<◌, min, String, ◌≡◌, refl, sym, ap, ◌∙◌, ◌≢◌, ◌↔◌,
  ◌⊎◌, inl, inr, Bool, true, false, not, ◌&&◌, ◌||◌, Option, none, some, List, [], ◌∷◌, ◌++◌, map,
  arith, ◌==◌, eq_iff, eq_refl, eq_false_of_ne, ne_of_eq_false, some_inj, ltb, leb, eqb,
  if◌then◌else◌, ltb→lt, lt→ltb, eqb_iff, Bool-cases, Option-cases, length, get_elem?, modify,
  replicate, length-append, length-modify, length-replicate, length-map, get_elem?-in_range, All,
  keep, List-cases, eqb_pos,
}
use llmapi_gate_way.Common.Int.{
  ℤ, pos, negsuc, pos_part, neg_part, sub_ℕ, ◌+ℤ◌, ◌-ℤ◌, ◌≤ℤ◌, ltb_ℤ, leb_ℤ, +ℤ_parts, -ℤ_parts,
  eq_of_parts, int_laws,
}
use llmapi_gate_way.Common.Assoc.{
  Assoc, lookup, insert, delete, lookup-insert, lookup-delete, lookup-insert_self, lookup-insert_ne,
  assoc_laws,
}
use llmapi_gate_way.Common.Time.{Time, zero_time, at, second, max_duration, saturate, since, unix}
use llmapi_gate_way.Common.Float.{Float64}

pub record Connection : Type 0 where
  pub id : String
  -- `UpstreamResp.Body`, unless one of the two is nil.
  pub upstream_body : Option String
  pub created_at : Time
  pub last_activity : Time
  pub closed : Bool

pub record ConnectionManager : Type 0 where
  pub connections : Assoc Connection
  pub timeout : ℕ
  pub closed_bodies : List String

unfoldable pub new_connection_manager : ConnectionManager
new_connection_manager = record { connections = []; timeout = 300 * second; closed_bodies = [] }

-- `Register`
unfoldable pub register : String → Connection → ConnectionManager → ConnectionManager
register session_id conn cm = record cm { connections = insert session_id conn cm.connections }

-- The body that closing a connection closes.
unfoldable pub open_body : Connection → Option String
open_body conn = if conn.closed then none else conn.upstream_body

abbrev pub close_body : Option String → List String → List String
close_body none bodies = bodies
close_body (some b) bodies = b ∷ bodies

-- `Close`; the flag `Closed` of a connection that leaves the pool is not read any more.
unfoldable pub close : String → ConnectionManager → ConnectionManager
close session_id cm = elim (lookup session_id cm.connections) [
  | none ↦ cm
  | some conn ↦ record cm {
    connections = delete session_id cm.connections;
    closed_bodies = close_body (open_body conn) cm.closed_bodies;
  }
]

-- `now.Sub(conn.LastActivity) > cm.timeout`
unfoldable pub is_stale : ℕ → ℕ → Connection → Bool
is_stale timeout now conn = ltb_ℤ (pos timeout) (since now conn.last_activity)

-- The loop of `cleanupStaleConnections`: what stays, and the bodies closed.
unfoldable pub cleanup_loop :
    ℕ → ℕ → Assoc Connection → List String → Assoc Connection × List String
cleanup_loop timeout now [] bodies = ([], bodies)
cleanup_loop timeout now ((session_id, conn) ∷ rest) bodies = elim (is_stale timeout now conn) [
  | true ↦ cleanup_loop timeout now rest (close_body (open_body conn) bodies)
  | false ↦
      (let (kept, bodies') = cleanup_loop timeout now rest bodies in
        ((session_id, conn) ∷ kept, bodies'))
]

unfoldable pub cleanup_stale_connections : ℕ → ConnectionManager → ConnectionManager
cleanup_stale_connections now cm =
    let (kept, bodies) = cleanup_loop cm.timeout now cm.connections cm.closed_bodies in
    record cm { connections = kept; closed_bodies = bodies }

-- `GetConnection`
abbrev pub get_connection : String → ConnectionManager → Option Connection
get_connection session_id cm = lookup session_id cm.connections

-- `UpdateActivity`
unfoldable pub update_activity : String → ℕ → ConnectionManager → ConnectionManager
update_activity session_id now cm = elim (lookup session_id cm.connections) [
  | none ↦ cm
  | some conn ↦ record cm {
    connections = insert session_id (record conn { last_activity = at now }) cm.connections;
  }
]

-- `GetConnectionCount`
abbrev pub get_connection_count : ConnectionManager → ℕ
get_connection_count cm = length cm.connections

-- A call that changes the pool.
pub data Operation : Type 0 where
  registers : String → Connection → Operation
  closes : String → Operation
  cleans : ℕ → Operation
  updates : String → ℕ → Operation

abbrev pub apply : Operation → ConnectionManager → ConnectionManager
apply (registers session_id conn) cm = register session_id conn cm
apply (closes session_id) cm = close session_id cm
apply (cleans now) cm = cleanup_stale_connections now cm
apply (updates session_id now) cm = update_activity session_id now cm

abbrev pub run_all : List Operation → ConnectionManager → ConnectionManager
run_all [] cm = cm
run_all (op ∷ ops) cm = run_all ops (apply op cm)
