-- ===== src/Breaker/Limiter/Tests.antt =====
-- Buckets in memory, natural numbers for `float64`, texts that count, and runs of the limiter.
use llmapi_gate_way.Common.{
  ℕ, zero, suc, ◌+◌, ◌-◌, ◌*◌, ◌/◌, ◌≤◌, String, ◌≡◌, refl, ap, Option, none, some, List, [], ◌∷◌,
  arith, ◌==◌, ◌∙◌, eq_false_of_ne, ltb, leb, if◌then◌else◌, Bool-cases, ◌⊎◌, inl, inr, ◌<◌, true,
  false, sym, eq_iff,
}
use llmapi_gate_way.Common.Int.{pos, pos_part}
use llmapi_gate_way.Common.Assoc.{
  Assoc, lookup, insert, delete, lookup-insert, lookup-insert_self, lookup-insert_ne,
}
use llmapi_gate_way.Common.Float.{Float64}
use llmapi_gate_way.Common.Result.{Result, done, done_inj}
use llmapi_gate_way.Breaker.Limiter.{
  RateLimitDimension, RateLimiterConfig, Hashes, HashLaws, Texts, Exact, build_key, refill, bucket,
  consume, token_bucket_script, allow_request, check_dimensions, check_multi_dimension,
}
use llmapi_gate_way.Breaker.Limiter.Budget.{granted, granted-le}
use llmapi_gate_way.Breaker.Limiter.Payment.{Paid}
use llmapi_gate_way.Breaker.Limiter.Dimensions.{
  check_multi_dimension-Paid, check_multi_dimension-refused,
}

abbrev naturals : Float64
naturals = record {
  F = ℕ;
  of_int = pos_part;
  add = λ a b. a + b;
  sub = λ a b. a - b;
  mul = λ a b. a * b;
  div = λ a b. a / b;
  lt = ltb;
  le = leb;
}

abbrev tally : ℕ → String
tally zero = String.[]
tally (suc n) = String.◌∷◌ "1" (tally n)

abbrev counted : String → ℕ
counted String.[] = 0
counted (String.◌∷◌ c s) = suc (counted s)

counted-tally : (n : ℕ) → counted (tally n) ≡ n
counted-tally zero = refl
counted-tally (suc n) = ap (λ m. suc m) (counted-tally n)

abbrev tallies : Texts ℕ
tallies = record { tonumber = λ t. some (counted t); tostring = tally; scan = counted }

tallies-Exact : Exact naturals tallies
tallies-Exact = record {
  add_exact = λ a b h. refl;
  sub_exact = λ a b h k. refl;
  mul_exact = λ a b h. refl;
  lt_exact = λ a b h k. refl;
  le_exact = λ a b h k. refl;
  read-written = λ a h. ap (λ n. some n) (counted-tally a);
}

-- A bucket is its fields, and the seconds that it has left.
abbrev Hash : Type 0
Hash = Assoc String × Option ℕ

abbrev Store : Type 0
Store = Assoc Hash

abbrev hash_of : Option Hash → Hash
hash_of none = ([], none)
hash_of (some h) = h

abbrev expire_hash : String → ℕ → Store → Option Hash → Store
expire_hash k n s none = s
expire_hash k n s (some h) = insert k (h.0, some n) s

abbrev age : ℕ → Hash → Hash
age m (fields, none) = (fields, none)
age m (fields, some n) = if leb n m then ([], none) else (fields, some (n - m))

unfoldable age_all : ℕ → Store → Store
age_all m [] = []
age_all m ((k, h) ∷ rest) = (k, age m h) ∷ age_all m rest

abbrev fields_of : Store → String → Assoc String
fields_of s k = (hash_of (lookup k s)).0

abbrev memory : Hashes Store
memory = record {
  hmget = λ s k f g. done (lookup f (fields_of s k), lookup g (fields_of s k));
  hmset = λ s k p q.
      done (insert k (insert q.0 q.1 (insert p.0 p.1 (fields_of s k)), (hash_of (lookup k s)).1) s);
  expire = λ s k n. done (expire_hash k n s (lookup k s));
  hget = λ s k f. done (lookup f (fields_of s k));
  del = λ s k. done (delete k s);
  ttl = λ s k. (hash_of (lookup k s)).1;
  wait = age_all;
}

expire_hash-fields :
    (s : Store) (k other : String) (n : ℕ) (o : Option Hash)
    → lookup k s ≡ o
    → fields_of (expire_hash k n s o) other ≡ fields_of s other
expire_hash-fields s k other n none held = refl
expire_hash-fields s k other n (some h) held =
    ap (λ o. (hash_of o).0) (lookup-insert k other (h.0, some n) s)
    ∙ elim (Bool-cases (k == other)) [
      | inl same ↦ rw same (ap (λ o. (hash_of o).0) (sym (rw ((eq_iff k other).0 same) at held)))
      | inr differs ↦ rw differs refl
    ]

expire_hash-ttl :
    (s : Store) (k : String) (n : ℕ) (o : Option Hash)
    → lookup k s ≡ o
    → ((hash_of (lookup k (expire_hash k n s o))).1 ≡ some n)
      ⊎ ((hash_of (lookup k (expire_hash k n s o))).1 ≡ (hash_of (lookup k s)).1)
expire_hash-ttl s k n none held = inr refl
expire_hash-ttl s k n (some h) held = inl (rw (lookup-insert_self k (h.0, some n) s) refl)

lookup-age_all :
    (m : ℕ) (s : Store) (k : String)
    → hash_of (lookup k (age_all m s)) ≡ age m (hash_of (lookup k s))
unfolding age_all lookup
lookup-age_all m [] k = refl
lookup-age_all m ((name, h) ∷ rest) k = elim (Bool-cases (name == k)) [
  | inl same ↦ rw same refl
  | inr differs ↦ rw differs (lookup-age_all m rest k)
]

age-alive : (m n : ℕ) (h : Hash) → h.1 ≡ some n → m < n → age m h ≡ (h.0, some (n - m))
age-alive m n (fields, left) e alive =
    let late : leb n m ≡ false = ground arith in rw (e, age, late) refl

age-expired : (m n : ℕ) (h : Hash) → h.1 ≡ some n → n ≤ m → age m h ≡ ([], none)
age-expired m n (fields, left) e gone =
    let late : leb n m ≡ true = ground arith in rw (e, age, late) refl

age-lasting : (m : ℕ) (h : Hash) → h.1 ≡ none → age m h ≡ (h.0, none)
age-lasting m (fields, left) e = rw (e, age) refl

-- Two fields of a bucket.
abbrev two_fields : String → String → Hash → Result String (Option String × Option String)
two_fields f g h = done (lookup f h.0, lookup g h.0)

memory-HashLaws : HashLaws memory
unfolding lookup
memory-HashLaws = record {
  hmget-hmset = λ s s' k f g v w differs e. rw (← done_inj e) (
      ap (λ o. two_fields f g (hash_of o)) (lookup-insert_self k _ s)
      ∙ rw
          (
            lookup-insert_ne g f w (insert f v (fields_of s k))
                (eq_false_of_ne g f (λ q. differs (sym q))),
            lookup-insert_self f v (fields_of s k),
            lookup-insert_self g w (insert f v (fields_of s k)),
          )
          refl);
  hmget-hmset_other = λ s s' k other f g p q differs e. rw (← done_inj e) (
      ap (λ o. two_fields f g (hash_of o))
        (lookup-insert_ne k other _ s (eq_false_of_ne k other differs)));
  hmget-expire = λ s s' k other f g n positive e. rw (← done_inj e) (
      ap (λ fields. two_fields f g (fields, none))
        (expire_hash-fields s k other n (lookup k s) refl));
  ttl-hmset =
      λ s s' k p q e. rw (← done_inj e) (ap (λ o. (hash_of o).1) (lookup-insert_self k _ s));
  ttl-expire = λ s s' k n positive e. rw (← done_inj e) (expire_hash-ttl s k n (lookup k s) refl);
  wait-lasting = λ s k f g m e.
      let aged = lookup-age_all m s k ∙ age-lasting m (hash_of (lookup k s)) e in
      (ap (two_fields f g) aged, ap (λ h. h.1) aged);
  wait-alive = λ s k f g m n e alive.
      let aged = lookup-age_all m s k ∙ age-alive m n (hash_of (lookup k s)) e alive in
      (ap (two_fields f g) aged, ap (λ h. h.1) aged);
  wait-expired = λ s k f g m n e gone.
      let aged = lookup-age_all m s k ∙ age-expired m n (hash_of (lookup k s)) e gone in
      ap (two_fields f g) aged;
}

-- Three tokens and one each second: of four calls in two seconds the third is refused.
abbrev calls : List (ℕ × ℕ)
calls = (2, 5000000000) ∷ (1, 5500000000) ∷ (1, 5900000000) ∷ (2, 7000000000) ∷ []

granted-calls : granted naturals tallies memory "user" "ada" 3 1 [] 5 calls ≡ 5
unfolding granted allow_request token_bucket_script bucket consume refill build_key insert lookup
    age_all
granted-calls = refl

granted-le_example : granted naturals tallies memory "user" "ada" 3 1 [] 5 calls ≤ 3 + (7 - 5) * 1
unfolding lookup
granted-le_example =
    granted-le naturals tallies tallies-Exact memory memory-HashLaws "user" "ada" 3 1 [] calls 5 7
      refl refl (omega arith)
      (
        omega arith,
        omega arith,
        (
          omega arith,
          omega arith,
          (omega arith, omega arith, (omega arith, omega arith, omega arith)),
        ),
      )
      (omega arith) (omega arith)

abbrev small : RateLimiterConfig ℕ
small = record {
  user_capacity = pos 9;
  user_rate = 1;
  app_capacity = pos 9;
  app_rate = 1;
  model_capacity = pos 2;
  model_rate = 1;
}

abbrev clock : ℕ → ℕ
clock i = 5000000000

abbrev limit : String → String → ℕ → RateLimitDimension ℕ
limit kind identifier capacity = record {
  kind = kind;
  identifier = identifier;
  capacity = pos capacity;
  rate = 1;
}

abbrev kept_bucket : String → String → Hash
kept_bucket t u = (("tokens", t) ∷ ("last_update", u) ∷ [], some 3600)

-- The three buckets after a request for two tokens.
abbrev after : Store
after =
    ("ratelimit:user:ada", kept_bucket (tally 7) (tally 5))
    ∷ ("ratelimit:app:desk", kept_bucket (tally 7) (tally 5))
    ∷ ("ratelimit:model:gpt-4", kept_bucket (tally 0) (tally 5))
    ∷ []

check_multi_dimension-Paid_example :
    Paid naturals tallies memory (limit "user" "ada" 9) (pos 2) 5000000000 [] after
    × Paid naturals tallies memory (limit "app" "desk" 9) (pos 2) 5000000000 [] after
    × Paid naturals tallies memory (limit "model" "gpt-4" 2) (pos 2) 5000000000 [] after
unfolding check_multi_dimension check_dimensions allow_request token_bucket_script bucket consume
    refill build_key insert lookup
check_multi_dimension-Paid_example =
    check_multi_dimension-Paid naturals tallies memory memory-HashLaws small "ada" "desk" "gpt-4"
      (pos 2) clock [] after refl

-- A second such request is refused by the model's bucket.
abbrev refused : Store
refused =
    ("ratelimit:user:ada", kept_bucket (tally 5) (tally 5))
    ∷ ("ratelimit:app:desk", kept_bucket (tally 5) (tally 5))
    ∷ ("ratelimit:model:gpt-4", kept_bucket (tally 0) (tally 5))
    ∷ []

check_multi_dimension-refused_example :
    Paid naturals tallies memory (limit "user" "ada" 9) (pos 2) 5000000000 after refused
    × Paid naturals tallies memory (limit "app" "desk" 9) (pos 2) 5000000000 after refused
unfolding check_multi_dimension check_dimensions allow_request token_bucket_script bucket consume
    refill build_key insert lookup
check_multi_dimension-refused_example =
    check_multi_dimension-refused naturals tallies memory memory-HashLaws small "ada" "desk" "gpt-4"
      (pos 2) clock after refused "gpt-4" refl
