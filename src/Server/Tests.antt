-- ===== src/Server/Tests.antt =====
-- Routes of a server.
use llmapi_gate_way.Common.Decimal.{decimal_within}
use llmapi_gate_way.Server.{Server, new_server}
use llmapi_gate_way.Server.Memory.{memory_gin}
use llmapi_gate_way.Common.{String, ◌≡◌, refl, List}
use llmapi_gate_way.Common.Int.{pos}

abbrev fresh_server : Server (List (String × String × String))
fresh_server = new_server memory_gin "0.0.0.0" (pos 8080) (pos 0) (pos 0)

listens_at : fresh_server.addr ≡ "0.0.0.0:8080"
unfolding new_server decimal_within
listens_at = refl
