-- ===== src/Breaker/Limiter.antt =====
-- internal/breaker/limiter.go: the token bucket script and the three dimensions of a request. Redis
-- and Lua's numbers are arguments. A script runs atomically; a command that fails ends it, and what
-- it wrote before stays. A bucket expires an hour after a call wrote it: `Hashes` has the time of Redis.
use Prim.Native.String.{◌++◌ as concat}
pub mod Expiry
pub mod Budget
pub mod Payment
pub mod Dimensions
mod Tests
use llmapi_gate_way.Common.{
  ℕ, zero, suc, ◌+◌, ◌-◌, ◌*◌, ◌/◌, ◌%◌, ◌≤◌, ◌<◌, min, String, ◌≡◌, refl, sym, ap, ◌∙◌, ◌≢◌, ◌↔◌,
  ◌⊎◌, inl, inr, Bool, true, false, not, ◌&&◌, ◌||◌, Option, none, some, List, [], ◌∷◌, ◌++◌, map,
  arith, ◌==◌, eq_iff, eq_refl, eq_false_of_ne, ne_of_eq_false, some_inj, ltb, leb, eqb,
  if◌then◌else◌, ltb→lt, lt→ltb, eqb_iff, Bool-cases, Option-cases, length, get_elem?, modify,
  replicate, length-append, length-modify, length-replicate, length-map, get_elem?-in_range, All,
  keep, List-cases, eqb_pos,
}
use llmapi_gate_way.Common.Int.{
  ℤ, pos, negsuc, pos_part, neg_part, sub_ℕ, ◌+ℤ◌, ◌-ℤ◌, ◌≤ℤ◌, ltb_ℤ, leb_ℤ, +ℤ_parts, -ℤ_parts,
  eq_of_parts, int_laws,
}
use llmapi_gate_way.Common.Assoc.{
  Assoc, lookup, insert, delete, lookup-insert, lookup-delete, lookup-insert_self, lookup-insert_ne,
  assoc_laws,
}
use llmapi_gate_way.Common.Time.{Time, zero_time, at, second, max_duration, saturate, since, unix}
use llmapi_gate_way.Common.Float.{Float64}
use llmapi_gate_way.Common.Result.{Result, done, failed}

pub record RateLimitDimension (F : Type 0) : Type 0 where
  pub kind : String
  pub identifier : String
  pub capacity : ℤ
  pub rate : F

-- A dimension that is exceeded, or the error of Redis.
pub data RateLimitFailure : Type 0 where
  rate_limit_exceeded : String → String → RateLimitFailure
  check_failed : String → RateLimitFailure

-- `RateLimitError.Error`
unfoldable pub rate_limit_message : String → String → String
rate_limit_message kind identifier =
    concat "rate limit exceeded for " (concat kind (concat ": " identifier))

pub record RateLimiterConfig (F : Type 0) : Type 0 where
  pub user_capacity : ℤ
  pub user_rate : F
  pub app_capacity : ℤ
  pub app_rate : F
  pub model_capacity : ℤ
  pub model_rate : F

-- HMGET and HMSET of two fields, EXPIRE, HGET and DEL. The script does not call TTL, the seconds that a
-- key has left, if it expires; with the store some whole seconds later it tells what EXPIRE does.
pub record Hashes (S : Type 0) : Type 0 where
  pub hmget : S → String → String → String → Result String (Option String × Option String)
  pub hmset : S → String → String × String → String × String → Result String S
  pub expire : S → String → ℕ → Result String S
  pub hget : S → String → String → Result String (Option String)
  pub del : S → String → Result String S
  pub ttl : S → String → Option ℕ
  pub wait : ℕ → S → S

-- The documented behaviour of these commands.
pub record HashLaws {S : Type 0} (redis : Hashes S) : Type 0 where
  pub hmget-hmset :
      (s s' : S) (k f g v w : String)
      → f ≢ g
      → redis.hmset s k (f, v) (g, w) ≡ done s'
      → redis.hmget s' k f g ≡ done (some v, some w)
  pub hmget-hmset_other :
      (s s' : S) (k other f g : String) (p q : String × String)
      → k ≢ other
      → redis.hmset s k p q ≡ done s'
      → redis.hmget s' other f g ≡ redis.hmget s other f g
  pub hmget-expire :
      (s s' : S) (k other f g : String) (n : ℕ)
      → 0 < n
      → redis.expire s k n ≡ done s'
      → redis.hmget s' other f g ≡ redis.hmget s other f g
  pub ttl-hmset :
      (s s' : S) (k : String) (p q : String × String)
      → redis.hmset s k p q ≡ done s'
      → redis.ttl s' k ≡ redis.ttl s k
  -- A key that does not exist gets no expiry.
  pub ttl-expire :
      (s s' : S) (k : String) (n : ℕ)
      → 0 < n
      → redis.expire s k n ≡ done s'
      → (redis.ttl s' k ≡ some n) ⊎ (redis.ttl s' k ≡ redis.ttl s k)
  pub wait-lasting :
      (s : S) (k f g : String) (m : ℕ)
      → redis.ttl s k ≡ none
      → (redis.hmget (redis.wait m s) k f g ≡ redis.hmget s k f g)
        × (redis.ttl (redis.wait m s) k ≡ none)
  pub wait-alive :
      (s : S) (k f g : String) (m n : ℕ)
      → redis.ttl s k ≡ some n
      → m < n
      → (redis.hmget (redis.wait m s) k f g ≡ redis.hmget s k f g)
        × (redis.ttl (redis.wait m s) k ≡ some (n - m))
  pub wait-expired :
      (s : S) (k f g : String) (m n : ℕ)
      → redis.ttl s k ≡ some n
      → n ≤ m
      → redis.hmget (redis.wait m s) k f g ≡ done (none, none)

-- Lua's `tonumber`, and the text of a number that is handed to a Redis command; `scan` is `%f` of
-- Go's `Sscanf`, which leaves a text that is no number at zero.
pub record Texts (F : Type 0) : Type 0 where
  pub tonumber : String → Option F
  pub tostring : F → String
  pub scan : String → F

-- Up to 2^53 a double holds every natural number, and is written and read back without a loss.
abbrev pub exact_limit : ℕ
exact_limit = 9007199254740992

pub record Exact (fl : Float64) (lua : Texts fl.F) : Type 0 where
  pub add_exact :
      (a b : ℕ)
      → a + b ≤ exact_limit
      → fl.add (fl.of_int (pos a)) (fl.of_int (pos b)) ≡ fl.of_int (pos (a + b))
  pub sub_exact :
      (a b : ℕ)
      → b ≤ a
      → a ≤ exact_limit
      → fl.sub (fl.of_int (pos a)) (fl.of_int (pos b)) ≡ fl.of_int (pos (a - b))
  pub mul_exact :
      (a b : ℕ)
      → a * b ≤ exact_limit
      → fl.mul (fl.of_int (pos a)) (fl.of_int (pos b)) ≡ fl.of_int (pos (a * b))
  pub lt_exact :
      (a b : ℕ)
      → a ≤ exact_limit
      → b ≤ exact_limit
      → fl.lt (fl.of_int (pos a)) (fl.of_int (pos b)) ≡ ltb a b
  pub le_exact :
      (a b : ℕ)
      → a ≤ exact_limit
      → b ≤ exact_limit
      → fl.le (fl.of_int (pos a)) (fl.of_int (pos b)) ≡ leb a b
  pub read-written :
      (a : ℕ)
      → a ≤ exact_limit
      → lua.tonumber (lua.tostring (fl.of_int (pos a))) ≡ some (fl.of_int (pos a))

-- `buildKey`
unfoldable pub build_key : String → String → String
build_key kind identifier = concat "ratelimit:" (concat kind (concat ":" identifier))

module _ (fl : Float64) where
  abbrev whole : ℕ → fl.F
  whole n = fl.of_int (pos n)

  abbrev is_positive : ℤ → Bool
  is_positive n = ltb_ℤ (pos 0) n

  abbrev above_zero : fl.F → Bool
  above_zero x = fl.lt (whole 0) x

  abbrev pub defaults : RateLimiterConfig fl.F
  defaults = record {
    user_capacity = pos 10000;
    user_rate = whole 100;
    app_capacity = pos 50000;
    app_rate = whole 500;
    model_capacity = pos 100000;
    model_rate = whole 1000;
  }

  -- `NewRateLimiter`: what the configuration gives, if it is positive.
  unfoldable pub new_rate_limiter : Option (RateLimiterConfig fl.F) → RateLimiterConfig fl.F
  new_rate_limiter none = defaults
  new_rate_limiter (some c) = record {
    user_capacity = if is_positive c.user_capacity then c.user_capacity else defaults.user_capacity;
    user_rate = if above_zero c.user_rate then c.user_rate else defaults.user_rate;
    app_capacity = if is_positive c.app_capacity then c.app_capacity else defaults.app_capacity;
    app_rate = if above_zero c.app_rate then c.app_rate else defaults.app_rate;
    model_capacity =
        if is_positive c.model_capacity then c.model_capacity else defaults.model_capacity;
    model_rate = if above_zero c.model_rate then c.model_rate else defaults.model_rate;
  }

  -- `math.min` of Lua
  abbrev pub math_min : fl.F → fl.F → fl.F
  math_min a b = if fl.lt b a then b else a

  -- The tokens of a bucket by `now`.
  unfoldable pub refill : fl.F → fl.F → fl.F → fl.F → fl.F → fl.F
  refill capacity rate tokens last_update now =
      math_min capacity (fl.add tokens (fl.mul (fl.sub now last_update) rate))

  module _ (lua : Texts fl.F) {S : Type 0} (redis : Hashes S) where
    abbrev pub number : Option String → Option fl.F
    number none = none
    number (some t) = lua.tonumber t

    -- The bucket as it was kept, or a full one; a bucket with tokens and no time stops the script.
    unfoldable pub bucket : fl.F → fl.F → Option fl.F → Option fl.F → Result String (fl.F × fl.F)
    bucket capacity now none last_update = done (capacity, now)
    bucket capacity now (some tokens) none = failed "attempt to perform arithmetic on a nil value"
    bucket capacity now (some tokens) (some last_update) = done (tokens, last_update)

    unfoldable pub consume : S → String → fl.F → fl.F → fl.F → S × Result String Bool
    consume s key tokens requested now = elim (fl.le requested tokens) [
      | false ↦ (s, done false)
      | true ↦
          elim (redis.hmset s key ("tokens", lua.tostring (fl.sub tokens requested))
            ("last_update", lua.tostring now)) [
              | failed e ↦ (s, failed e)
              | done s' ↦ elim (redis.expire s' key 3600) [
                | failed e ↦ (s', failed e)
                | done s'' ↦ (s'', done true)
              ]
            ]
    ]

    unfoldable pub token_bucket_script :
        S → String → fl.F → fl.F → fl.F → fl.F → S × Result String Bool
    token_bucket_script s key capacity rate requested now =
        elim (redis.hmget s key "tokens" "last_update") [
          | failed e ↦ (s, failed e)
          | done (held, at_time) ↦ elim (bucket capacity now (number held) (number at_time)) [
            | failed e ↦ (s, failed e)
            | done (tokens, last_update) ↦
                consume s key (refill capacity rate tokens last_update now) requested now
          ]
        ]

    -- `AllowRequest` at a clock reading.
    unfoldable pub allow_request : S → RateLimitDimension fl.F → ℤ → ℕ → S × Result String Bool
    allow_request s dimension tokens now =
        token_bucket_script s (build_key dimension.kind dimension.identifier)
          (fl.of_int dimension.capacity) dimension.rate (fl.of_int tokens) (whole (unix now))

    abbrev pub dimensions :
        RateLimiterConfig fl.F → String → String → String → List (RateLimitDimension fl.F)
    dimensions rl user_id app_id model_id =
        (record {
          kind = "user";
          identifier = user_id;
          capacity = rl.user_capacity;
          rate = rl.user_rate;
        })
        ∷ (record {
          kind = "app";
          identifier = app_id;
          capacity = rl.app_capacity;
          rate = rl.app_rate;
        })
        ∷ (record {
          kind = "model";
          identifier = model_id;
          capacity = rl.model_capacity;
          rate = rl.model_rate;
        })
        ∷ []

    -- The loop of `CheckMultiDimension`; every round reads the clock.
    unfoldable pub check_dimensions :
        S → List (RateLimitDimension fl.F) → ℤ → (ℕ → ℕ) → S × Option RateLimitFailure
    check_dimensions s [] tokens clock = (s, none)
    check_dimensions s (dim ∷ rest) tokens clock =
        let (s', answer) = allow_request s dim tokens (clock zero) in
        elim answer [
          | failed e ↦ (s', some (check_failed e))
          | done false ↦ (s', some (rate_limit_exceeded dim.kind dim.identifier))
          | done true ↦ check_dimensions s' rest tokens (λ i. clock (suc i))
        ]

    unfoldable pub check_multi_dimension :
        RateLimiterConfig fl.F
        → S
        → String
        → String
        → String
        → ℤ
        → (ℕ → ℕ)
        → S × Option RateLimitFailure
    check_multi_dimension rl s user_id app_id model_id tokens clock =
        check_dimensions s (dimensions rl user_id app_id model_id) tokens clock

    -- `Reset`
    unfoldable pub reset : S → RateLimitDimension fl.F → S × Result String (Unit {0})
    reset s dimension = elim (redis.del s (build_key dimension.kind dimension.identifier)) [
      | failed e ↦ (s, failed e)
      | done s' ↦ (s', done tt)
    ]

    -- `GetTokens`: the tokens as they were kept, without those that came since.
    unfoldable pub get_tokens : S → RateLimitDimension fl.F → Result String fl.F
    get_tokens s dimension =
        elim (redis.hget s (build_key dimension.kind dimension.identifier) "tokens") [
          | failed e ↦ failed e
          | done none ↦ done (fl.of_int dimension.capacity)
          | done (some t) ↦ done (lua.scan t)
        ]
