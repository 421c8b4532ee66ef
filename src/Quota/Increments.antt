-- ===== src/Quota/Increments.antt =====
-- What the increments of a script of internal/quota/manager.go do to each counter, and that the keys
-- of different kinds differ.
use Prim.Native.String.{◌++◌ as concat}
use Prim.Native.Char.{Char, code}
use Prim.Native.String.{◌∷◌ as char_cons}
use text.Mathlib.TextLemmas.{append_cancel_left}
use llmapi_gate_way.Common.{
  String, ◌≡◌, refl, ◌≢◌, ◌⊎◌, inl, inr, true, false, ◌&&◌, Option, none, List, [], ◌∷◌, arith,
  ◌==◌, eq_iff, eq_refl, if◌then◌else◌, Bool-cases,
}
use llmapi_gate_way.Common.Int.{ℤ, pos, ◌+ℤ◌, int_laws}
use llmapi_gate_way.Common.Split.{differ_at_head}
use llmapi_gate_way.Common.Result.{done, Result-cases}
use llmapi_gate_way.Quota.Types.{quota_level_user, quota_level_app, quota_level_model}
use llmapi_gate_way.Quota.Redis.{Redis, number, RedisLaws}
use llmapi_gate_way.Quota.Manager.{build_key, reservation_key, Increment, read, increments}

-- The sum of the increments of one field.
unfoldable pub delta : String → String → List Increment → ℤ
delta key field [] = pos 0
delta key field ((k, (f, n)) ∷ rest) =
    if (k == key) && (f == field) then n +ℤ delta key field rest else delta key field rest

+ℤ_assoc : (a b c : ℤ) → a +ℤ b +ℤ c ≡ a +ℤ (b +ℤ c)
+ℤ_assoc a b c = grind int_laws

pub +ℤ_zero : (a : ℤ) → a +ℤ pos 0 ≡ a
+ℤ_zero a = grind int_laws

both : (k key f field : String) → ((k == key) && (f == field)) ≡ true → (k ≡ key) × (f ≡ field)
both k key f field h = elim (Bool-cases (k == key)) [
  | inl one ↦ ((eq_iff k key).0 one, (eq_iff f field).0 (rw one at h))
  | inr other ↦ absurd (cc (rw other at h))
]

differ_of_false : (k key : String) → (k == key) ≡ false → k ≢ key
differ_of_false k key h e = cc (rw (e, eq_refl key) at h)

apart : (k key f field : String) → ((k == key) && (f == field)) ≡ false → (k ≢ key) ⊎ (f ≢ field)
apart k key f field h = elim (Bool-cases (k == key)) [
  | inl one ↦ inr (differ_of_false f field (rw one at h))
  | inr other ↦ inl (differ_of_false k key other)
]

module _ {S : Type 0} (r : Redis S) (laws : RedisLaws r) where
  read-hget :
      (s : S) (key field : String) (n : ℤ)
      → read r s key field ≡ done n
      → (v : Option ℤ) × (r.hget s key field ≡ done v) × (number v ≡ n)
  read-hget s key field n h = elim (Result-cases (r.hget s key field)) [
    | inl (v, e) ↦ (v, e, ground (arith, h))
    | inr (x, e) ↦ ground (arith, h)
  ]

  read-hincrby :
      (s s' : S) (key field : String) (m n : ℤ)
      → r.hincrby s key field m ≡ done s'
      → read r s key field ≡ done n
      → read r s' key field ≡ done (n +ℤ m)
  read-hincrby s s' key field m n e h =
      let (v, got, is) = read-hget s key field n h in
      rw (laws.hget-hincrby s s' key field m v e got, is) refl

  pub increments-read :
      (ups : List Increment) (s : S) (key field : String) (n : ℤ)
      → (increments r s ups).1 ≡ none
      → read r s key field ≡ done n
      → read r (increments r s ups).0 key field ≡ done (n +ℤ delta key field ups)
  unfolding increments delta
  increments-read [] s key field n fine h = rw (+ℤ_zero n) h
  increments-read ((k, (f, m)) ∷ rest) s key field n fine h =
      elim (Result-cases (r.hincrby s k f m)) [
        | inl (s', e) ↦
            let fine' : (increments r s' rest).1 ≡ none = rw (e, increments) at fine in
            elim (Bool-cases ((k == key) && (f == field))) [
              | inl hit ↦
                  let (same_key, same_field) = both k key f field hit in
                  rw (e, hit, increments, delta)
                    (rw (← +ℤ_assoc n m (delta key field rest)) (
                      increments-read rest s' key field (n +ℤ m) fine'
                        (read-hincrby s s' key field m n (rw (same_key, same_field) at e) h)))
              | inr miss ↦
                  rw (e, miss, increments, delta)
                    (increments-read rest s' key field n fine' (
                      rw (laws.hget-hincrby_other s s' k f key field m (apart k key f field miss) e)
                        h))
            ]
        | inr (x, e) ↦ cc (rw (e, increments) at fine)
      ]

-- A key of one kind is none of another, whatever the identifiers.
pub build_key-ne-reservation_key :
    (level identifier id : String) → reservation_key id ≢ build_key level identifier
unfolding build_key
build_key-ne-reservation_key level identifier id =
    differ_at_head "r" "q" "eservation:" "uota:" id (concat level (concat ":" identifier))
      (λ e. omega arith)

build_key-ne :
    (a b : Char) (l m x y : String)
    → code a ≢ code b
    → build_key (char_cons a l) x ≢ build_key (char_cons b m) y
unfolding build_key
build_key-ne a b l m x y differs h =
    differ_at_head a b l m (concat ":" x) (concat ":" y) differs (append_cancel_left "quota:" _ _ h)

pub user-ne-app : (x y : String) → build_key quota_level_user x ≢ build_key quota_level_app y
user-ne-app x y = build_key-ne "u" "a" "ser" "pp" x y (λ e. omega arith)

pub user-ne-model : (x y : String) → build_key quota_level_user x ≢ build_key quota_level_model y
user-ne-model x y = build_key-ne "u" "m" "ser" "odel" x y (λ e. omega arith)

pub app-ne-model : (x y : String) → build_key quota_level_app x ≢ build_key quota_level_model y
app-ne-model x y = build_key-ne "a" "m" "pp" "odel" x y (λ e. omega arith)
