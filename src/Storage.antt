-- ===== src/Storage.antt =====
-- internal/storage: the wrappers of the Kafka, PostgreSQL and Redis clients, which are parameters here, as
-- functions on a state. Log lines are left out.
pub mod Batches
mod Tests
use Prim.Native.String.{◌++◌ as concat}
use llmapi_gate_way.Common.Decimal.{int_text}
use llmapi_gate_way.Common.Result.{Result, done, failed}
use llmapi_gate_way.Common.{
  ℕ, zero, suc, ◌+◌, ◌-◌, ◌*◌, ◌/◌, ◌%◌, ◌≤◌, ◌<◌, min, String, ◌≡◌, refl, sym, ap, ◌∙◌, ◌≢◌, ◌↔◌,
  ◌⊎◌, inl, inr, Bool, true, false, not, ◌&&◌, ◌||◌, Option, none, some, List, [], ◌∷◌, ◌++◌, map,
  arith, ◌==◌, eq_iff, eq_refl, eq_false_of_ne, ne_of_eq_false, some_inj, ltb, leb, eqb,
  if◌then◌else◌, ltb→lt, lt→ltb, eqb_iff, Bool-cases, Option-cases, length, get_elem?, modify,
  replicate, length-append, length-modify, length-replicate, length-map, get_elem?-in_range, All,
  keep, List-cases, eqb_pos,
}
use llmapi_gate_way.Common.Int.{
  ℤ, pos, negsuc, pos_part, neg_part, sub_ℕ, ◌+ℤ◌, ◌-ℤ◌, ◌≤ℤ◌, ltb_ℤ, leb_ℤ, +ℤ_parts, -ℤ_parts,
  eq_of_parts, int_laws,
}
use llmapi_gate_way.Common.Assoc.{
  Assoc, lookup, insert, delete, lookup-insert, lookup-delete, lookup-insert_self, lookup-insert_ne,
  assoc_laws,
}
use llmapi_gate_way.Common.Time.{Time, zero_time, at, second, max_duration, saturate, since, unix}
use llmapi_gate_way.Common.Float.{Float64}

-- An error of a Kafka reader.
pub data KafkaError : Type 0 where
  canceled : KafkaError
  deadline_exceeded : KafkaError
  broker_error : String → KafkaError

-- What a call of `ReadMessages` gives: messages, an error, or the panic of `make` with a negative
-- capacity.
pub data Batch (M : Type 0) : Type 0 where
  messages : List M → Batch M
  read_error : String → Batch M
  panics : Batch M

module _ {S M : Type 0} (read_message : S → S × Result KafkaError M) where
  abbrev pub read_more : M → S × Batch M → S × Batch M
  read_more m (s, messages ms) = (s, messages (m ∷ ms))
  read_more m (s, read_error e) = (s, read_error e)
  read_more m (s, panics) = (s, panics)

  abbrev pub on_error : S → KafkaError → S × Batch M
  on_error s canceled = (s, messages [])
  on_error s deadline_exceeded = (s, messages [])
  on_error s (broker_error e) = (s, read_error (concat "failed to read message: " e))

  -- The loop of `ReadMessages`, with so many turns to go.
  abbrev pub after_read : (S → S × Batch M) → S × Result KafkaError M → S × Batch M
  after_read more (s, failed e) = on_error s e
  after_read more (s, done m) = read_more m (more s)

  unfoldable pub read_loop : ℕ → S → S × Batch M
  read_loop zero s = (s, messages [])
  read_loop (suc n) s = after_read (read_loop n) (read_message s)

  unfoldable pub read_messages : ℤ → S → S × Batch M
  read_messages (pos max) s = read_loop max s
  read_messages (negsuc n) s = (s, panics)

-- The connection string of `NewPostgresClient`.
unfoldable pub connection_string : String → ℤ → String → String → String → String
connection_string host port user password database = concat "host=" (
    concat host (
      concat " port=" (
        concat (int_text port) (
          concat " user=" (
            concat user (
              concat " password="
                (concat password (concat " dbname=" (concat database " sslmode=disable")))))))))

-- `NewPostgresClient` with the results of `sql.Open` and of the ping; the sizes of the pool are left out.
abbrev pub pinged : {D : Type 0} → D → Option String → Result String D
pinged db none = done db
pinged db (some e) = failed (concat "failed to connect to PostgreSQL: " e)

abbrev pub opened : {D : Type 0} → (D → Option String) → Result String D → Result String D
opened ping (done db) = pinged db (ping db)
opened ping (failed e) = failed (concat "failed to open database: " e)

unfoldable pub new_postgres_client :
    {D : Type 0}
    → (String → Result String D)
    → (D → Option String)
    → String
    → ℤ
    → String
    → String
    → String
    → Result String D
new_postgres_client sql_open ping host port user password database =
    opened ping (sql_open (connection_string host port user password database))

-- `CreateTable` and `DropTable` over `ExecContext`.
abbrev pub wrapped : {S : Type 0} → String → S × Option String → S × Option String
wrapped what (s, none) = (s, none)
wrapped what (s, some e) = (s, some (concat what (concat ": " e)))

unfoldable pub create_table :
    {S : Type 0} → (String → S → S × Option String) → String → String → S → S × Option String
create_table exec table_name schema s = wrapped (concat "failed to create table " table_name) (
    exec
      (concat "CREATE TABLE IF NOT EXISTS " (concat table_name (concat " (" (concat schema ")"))))
      s)

unfoldable pub drop_table :
    {S : Type 0} → (String → S → S × Option String) → String → S → S × Option String
drop_table exec table_name s =
    wrapped (concat "failed to drop table " table_name)
      (exec (concat "DROP TABLE IF EXISTS " table_name) s)

-- The options of `NewRedisClient`, and its result with that of the ping.
pub record RedisOptions : Type 0 where
  pub addr : String
  pub password : String
  pub db : ℤ
  pub pool_size : ℤ
  pub min_idle_conns : ℤ

-- `/` of Go, which rounds towards zero.
abbrev pub half : ℤ → ℤ
half (pos n) = pos (n / 2)
half (negsuc n) = pos 0 -ℤ pos (suc n / 2)

abbrev pub redis_pinged : {C : Type 0} → C → Option String → Result String C
redis_pinged client none = done client
redis_pinged client (some e) = failed (concat "failed to connect to Redis: " e)

unfoldable pub new_redis_client :
    {C : Type 0}
    → (RedisOptions → C)
    → (C → Option String)
    → String
    → String
    → ℤ
    → ℤ
    → Result String C
new_redis_client new_client ping addr password db pool_size =
    let client = new_client (record {
      addr = addr;
      password = password;
      db = db;
      pool_size = pool_size;
      min_idle_conns = half pool_size;
    }) in
    redis_pinged client (ping client)
