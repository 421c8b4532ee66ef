-- ===== src/Proxy/Connections/Tests.antt =====
-- Runs of the pool of connections.
use llmapi_gate_way.Common.{◌+◌, ◌*◌, ◌≤◌, String, ◌≡◌, refl, false, some, List, [], ◌∷◌}
use llmapi_gate_way.Common.Assoc.{lookup, insert, delete}
use llmapi_gate_way.Common.Time.{at, second}
use llmapi_gate_way.Proxy.Connections.{
  Connection, ConnectionManager, new_connection_manager, register, open_body, close, is_stale,
  cleanup_loop, cleanup_stale_connections, update_activity, Operation, registers, closes, cleans,
  updates, run_all,
}
use llmapi_gate_way.Proxy.Connections.Closed.{times, registered_times, open_times, run_all-times}

abbrev connection : String → Connection
connection body = record {
  id = "s";
  upstream_body = some body;
  created_at = at 0;
  last_activity = at 0;
  closed = false;
}

-- The second connection is idle for ten minutes, while the first was used.
abbrev calls : List Operation
calls =
    registers "a" (connection "x")
    ∷ registers "b" (connection "y")
    ∷ updates "a" 600000000000
    ∷ cleans 600000000000
    ∷ closes "b"
    ∷ closes "a"
    ∷ []

closed_calls : (run_all calls new_connection_manager).closed_bodies ≡ "x" ∷ "y" ∷ []
unfolding new_connection_manager register close cleanup_stale_connections cleanup_loop
    update_activity open_body is_stale insert delete lookup
closed_calls = refl

run_all-times_example :
    let cm = run_all calls new_connection_manager in
    times "x" cm.closed_bodies + open_times "x" cm.connections ≤ registered_times "x" calls
run_all-times_example = run_all-times "x" calls

abbrev used : Connection
used = record (connection "x") { last_activity = at 600000000000 }

abbrev pool : ConnectionManager
pool = record {
  connections = ("a", used) ∷ ("b", connection "y") ∷ [];
  timeout = 300 * second;
  closed_bodies = [];
}
