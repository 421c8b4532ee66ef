-- ===== src/Storage/Tests.antt =====
-- A topic of two messages whose broker fails.
use llmapi_gate_way.Common.Decimal.{decimal_within}
use llmapi_gate_way.Common.Result.{Result, done, failed}
use llmapi_gate_way.Storage.{
  KafkaError, deadline_exceeded, broker_error, messages, read_error, read_loop, read_messages,
  connection_string,
}
use llmapi_gate_way.Storage.Batches.{Fetched, read_messages-Fetched}
use llmapi_gate_way.Common.{String, ◌≡◌, refl, List, [], ◌∷◌}
use llmapi_gate_way.Common.Int.{pos}

-- The state is the list of what the reader will give.
abbrev read_next :
    List (Result KafkaError String) → List (Result KafkaError String) × Result KafkaError String
read_next [] = ([], failed deadline_exceeded)
read_next (r ∷ rest) = (rest, r)

abbrev topic : List (Result KafkaError String)
topic = done "a" ∷ done "b" ∷ failed (broker_error "eof") ∷ []

two_messages : (read_messages read_next (pos 2) topic).1 ≡ messages ("a" ∷ "b" ∷ [])
unfolding read_messages read_loop
two_messages = refl

-- The third read fails, and the two messages before it are dropped.
two_dropped : (read_messages read_next (pos 5) topic).1 ≡ read_error "failed to read message: eof"
unfolding read_messages read_loop
two_dropped = refl

read_messages-Fetched_example : Fetched read_next 5 topic (read_messages read_next (pos 5) topic)
read_messages-Fetched_example = read_messages-Fetched read_next 5 topic

-- A password is not quoted: this one turns TLS settings into its own.
unquoted :
    connection_string "db" (pos 5432) "u" "x sslmode=require" "d"
    ≡ "host=db port=5432 user=u password=x sslmode=require dbname=d sslmode=disable"
unfolding connection_string decimal_within
unquoted = refl
