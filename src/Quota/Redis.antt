-- ===== src/Quota/Redis.antt =====
-- What internal/quota/manager.go uses of Redis: the store is a parameter, with the documented
-- behaviour of its commands as laws. A command that fails reports a text: the connection is down, or
-- the key holds another type of value, or a counter overflows.
use llmapi_gate_way.Common.{String, ◌≡◌, ◌≢◌, ◌⊎◌, Option, none, some}
use llmapi_gate_way.Common.Int.{ℤ, pos, ◌+ℤ◌}
use llmapi_gate_way.Common.Result.{Result, done}

pub record Redis (S : Type 0) : Type 0 where
  -- One field of HMGET, as the number that Lua's `tonumber` makes of it; a missing field is none.
  pub hget : S → String → String → Result String (Option ℤ)
  pub hincrby : S → String → String → ℤ → Result String S
  -- A missing key is none.
  pub get : S → String → Result String (Option String)
  pub set : S → String → String → Result String S

-- `tonumber(x) or 0`
abbrev pub number : Option ℤ → ℤ
number none = pos 0
number (some n) = n

pub record RedisLaws {S : Type 0} (r : Redis S) : Type 0 where
  -- HINCRBY adds to the field, a missing one counting as 0, and leaves every other field alone.
  pub hget-hincrby :
      (s s' : S) (key field : String) (n : ℤ) (v : Option ℤ)
      → r.hincrby s key field n ≡ done s'
      → r.hget s key field ≡ done v
      → r.hget s' key field ≡ done (some (number v +ℤ n))
  pub hget-hincrby_other :
      (s s' : S) (key field key' field' : String) (n : ℤ)
      → (key ≢ key') ⊎ (field ≢ field')
      → r.hincrby s key field n ≡ done s'
      → r.hget s' key' field' ≡ r.hget s key' field'
  -- SET writes its own key only.
  pub get-set :
      (s s' : S) (key text : String) → r.set s key text ≡ done s' → r.get s' key ≡ done (some text)
  pub hget-set :
      (s s' : S) (key text key' field : String)
      → key ≢ key'
      → r.set s key text ≡ done s'
      → r.hget s' key' field ≡ r.hget s key' field
