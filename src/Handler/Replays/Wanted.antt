-- ===== src/Handler/Replays/Wanted.antt =====
-- What a request for the history asks for, said without the filter that internal/handler/replay.go
-- makes of it and internal/replay/service.go tests: the times, the user, the model and the number.
use Prim.{¬◌}
use llmapi_gate_way.Common.Int.{ℤ, pos, negsuc}
use llmapi_gate_way.Common.Time.{Time, zero_time, at}
use llmapi_gate_way.Common.Result.{Result, done, failed, Result-cases}
use llmapi_gate_way.Replay.Types.{RequestMetadata, HistoryFilter}
use llmapi_gate_way.Replay.Service.{
  is_before, starts_after, ends_before, matches_filter, limit_of, read_messages,
}
use llmapi_gate_way.Replay.Report.{decoded}
use llmapi_gate_way.Handler.Replays.{Parsers, limit_param}
use llmapi_gate_way.Common.{
  ℕ, zero, suc, ◌≤◌, ◌<◌, String, ◌≡◌, refl, ◌≢◌, ◌⊎◌, inl, inr, Bool, true, false, not, ◌&&◌,
  Option, none, some, List, [], ◌∷◌, arith, ◌==◌, eq_iff, ne_of_eq_false, Bool-cases, ltb, ltb→lt,
}

-- A time is not after another one.
abbrev pub AtMost : Time → Time → Type 0
AtMost zero_time u = Unit {0}
AtMost (at t) zero_time = zero_time ≢ zero_time
AtMost (at t) (at u) = t ≤ u

abbrev pub IsFrom : Option Time → Time → Type 0
IsFrom none t = Unit {0}
IsFrom (some start) t = AtMost start t

abbrev pub IsUntil : Option Time → Time → Type 0
IsUntil none t = Unit {0}
IsUntil (some end) t = AtMost t end

-- A text that is asked for, where the empty one asks for any.
abbrev pub IsAsked : String → String → Type 0
IsAsked v x = (v ≡ "") ⊎ (x ≡ v)

abbrev pub IsWanted : Option Time → Option Time → String → String → RequestMetadata → Type 0
IsWanted start end user model meta =
    IsFrom start meta.timestamp
    × IsUntil end meta.timestamp
    × IsAsked user meta.user_id
    × IsAsked model meta.model_id

-- The first so many of a list that are wanted, in their order.
pub data FirstOf {A : Type 0} (P : A → Type 0) : ℕ → List A → List A → Type 0 where
  full : (xs : List A) → FirstOf P 0 xs []
  ended : (n : ℕ) → FirstOf P n [] []
  taken :
      {n : ℕ} {x : A} {xs found : List A}
      → P x
      → FirstOf P n xs found
      → FirstOf P (suc n) (x ∷ xs) (x ∷ found)
  passed :
      {n : ℕ} {x : A} {xs found : List A}
      → ¬ P x
      → FirstOf P (suc n) xs found
      → FirstOf P (suc n) (x ∷ xs) found

-- A query parameter that is a time, or missing.
abbrev pub IsBound : Parsers → String → Option Time → Type 0
IsBound ps v none = v ≡ ""
IsBound ps v (some t) = (v ≢ "") × (ps.parse_time v ≡ done t)

abbrev pub IsOutOfRange : ℤ → Type 0
IsOutOfRange (negsuc n) = Unit {0}
IsOutOfRange (pos k) = (k ≡ 0) ⊎ (1000 < k)

-- The number of records: the asked one from 1 to 1000, and 100 for any other text.
abbrev pub IsRoom : Parsers → String → ℕ → Type 0
IsRoom ps v n =
    ((v ≢ "") × (ps.scan_int v ≡ done (pos n)) × (1 ≤ n) × (n ≤ 1000))
    ⊎ ((n ≡ 100)
        × ((v ≡ "")
            ⊎ (((e : String) × (ps.scan_int v ≡ failed e))
                ⊎ ((z : ℤ) × (ps.scan_int v ≡ done z) × IsOutOfRange z))))

-- A test that refuses whatever lacks a property.
abbrev Refuses : Bool → Type 0 → Type 0
Refuses b P = ((b ≡ false) × P) ⊎ ((b ≡ true) × ¬ P)

is_before-Refuses : (t u : Time) → Refuses (is_before t u) (AtMost u t)
is_before-Refuses zero_time zero_time = inl (refl, tt)
is_before-Refuses zero_time (at u) = inr (refl, λ h. h refl)
is_before-Refuses (at t) zero_time = inl (refl, tt)
is_before-Refuses (at t) (at u) = elim (Bool-cases (ltb t u)) [
  | inl e ↦ inr (e, λ h. omega (arith, h, ltb→lt t u e))
  | inr e ↦ inl (e, ground arith)
]

starts_after-Refuses :
    (start : Option Time) (t : Time) → Refuses (starts_after start t) (IsFrom start t)
starts_after-Refuses none t = inl (refl, tt)
starts_after-Refuses (some start) t = is_before-Refuses t start

ends_before-Refuses : (end : Option Time) (t : Time) → Refuses (ends_before end t) (IsUntil end t)
ends_before-Refuses none t = inl (refl, tt)
ends_before-Refuses (some end) t = is_before-Refuses end t

IsAsked-Refuses : (v x : String) → Refuses (not (v == "") && not (x == v)) (IsAsked v x)
IsAsked-Refuses v x = elim (Bool-cases (v == "")) [
  | inl any ↦ inl (rw any refl, inl ((eq_iff v "").0 any))
  | inr some_text ↦ elim (Bool-cases (x == v)) [
    | inl same ↦ inl (rw (some_text, same) refl, inr ((eq_iff x v).0 same))
    | inr differs ↦ inr (
      rw (some_text, differs) refl,
      λ h. elim h [
        | inl any ↦ ne_of_eq_false v "" some_text any
        | inr same ↦ ne_of_eq_false x v differs same
      ],
    )
  ]
]

abbrev Meets : HistoryFilter → RequestMetadata → Type 0
Meets f meta = IsWanted f.start_time f.end_time f.user_id f.model_id meta

matches_filter-cases :
    (meta : RequestMetadata) (f : HistoryFilter)
    → ((matches_filter meta f ≡ true) × Meets f meta)
      ⊎ ((matches_filter meta f ≡ false) × ¬ Meets f meta)
unfolding matches_filter
matches_filter-cases meta f = elim (starts_after-Refuses f.start_time meta.timestamp) [
  | inr (early, lacks) ↦ inr (rw early refl, λ w. lacks w.0)
  | inl (late, from) ↦ elim (ends_before-Refuses f.end_time meta.timestamp) [
    | inr (over, lacks) ↦ inr (rw (late, over) refl, λ w. lacks w.1)
    | inl (within, until) ↦ elim (IsAsked-Refuses f.user_id meta.user_id) [
      | inr (other, lacks) ↦ inr (rw (late, within, other) refl, λ w. lacks w.2)
      | inl (same, user) ↦ elim (IsAsked-Refuses f.model_id meta.model_id) [
        | inr (unlike, lacks) ↦ inr (rw (late, within, same, unlike) refl, λ w. lacks w.3)
        | inl (like, model) ↦ inl (rw (late, within, same, like) refl, (from, until, user, model))
      ]
    ]
  ]
]

pub read_messages-FirstOf :
    (unmarshal : String → Result String RequestMetadata) (f : HistoryFilter) (room : ℕ)
    (messages : List String)
    → FirstOf
        (IsWanted f.start_time f.end_time f.user_id f.model_id)
        room
        (decoded unmarshal messages)
        (read_messages unmarshal f room messages)
unfolding read_messages decoded
read_messages-FirstOf unmarshal f zero messages = full (decoded unmarshal messages)
read_messages-FirstOf unmarshal f (suc room) [] = ended (suc room)
read_messages-FirstOf unmarshal f (suc room) (message ∷ rest) =
    elim (Result-cases (unmarshal message)) [
      | inr (e, bad) ↦ rw (bad, read_messages) (read_messages-FirstOf unmarshal f (suc room) rest)
      | inl (meta, good) ↦ elim (matches_filter-cases meta f) [
        | inl (fits, wanted) ↦
            rw (good, read_messages, fits)
              (taken wanted (read_messages-FirstOf unmarshal f room rest))
        | inr (unfit, unwanted) ↦
            rw (good, read_messages, unfit)
              (passed unwanted (read_messages-FirstOf unmarshal f (suc room) rest))
      ]
    ]

limit_of-range :
    (z : ℤ)
    → ((k : ℕ) × (z ≡ pos k) × (1 ≤ k) × (k ≤ 1000) × (limit_of z ≡ k))
      ⊎ (IsOutOfRange z × (limit_of z ≡ 100))
unfolding limit_of
limit_of-range (negsuc n) = inr (tt, ground arith)
limit_of-range (pos zero) = inr (inl refl, refl)
limit_of-range (pos (suc k)) = elim (Bool-cases (ltb 1000 (suc k))) [
  | inl e ↦ inr (inr (ltb→lt 1000 (suc k) e), ground arith)
  | inr e ↦ inl (suc k, refl, omega arith, ground arith, ground arith)
]

out_of_range :
    (ps : Parsers) (v : String) (z : ℤ)
    → (v == "") ≡ false
    → ps.scan_int v ≡ done z
    → IsOutOfRange z
    → limit_of (limit_param ps v) ≡ 100
unfolding limit_param limit_of
out_of_range ps v (negsuc n) some_text good out =
    rw (some_text, limit_param, good, limit_of) (ground arith)
out_of_range ps v (pos zero) some_text good out = rw (some_text, limit_param, good) refl
out_of_range ps v (pos (suc k)) some_text good (inl zeroed) = absurd (omega (arith, zeroed))
out_of_range ps v (pos (suc k)) some_text good (inr many) =
    rw (some_text, limit_param, good, limit_of) (ground arith)

pub limit-IsRoom : (ps : Parsers) (v : String) → IsRoom ps v (limit_of (limit_param ps v))
unfolding limit_param limit_of
limit-IsRoom ps v = elim (Bool-cases (v == "")) [
  | inl empty ↦ inr (rw empty refl, inl ((eq_iff v "").0 empty))
  | inr some_text ↦ elim (Result-cases (ps.scan_int v)) [
    | inr (e, bad) ↦ inr (rw (some_text, bad) refl, inr (inl (e, bad)))
    | inl (z, good) ↦ elim (limit_of-range z) [
      | inl (k, same, least, most, kept) ↦
          let room : limit_of (limit_param ps v) ≡ k =
            rw (some_text, limit_param, good, same, limit_of) (ground arith) in
          rw room (inl (ne_of_eq_false v "" some_text, rw same at good, least, most))
      | inr (out, default) ↦ inr (out_of_range ps v z some_text good out, inr (inr (z, good, out)))
    ]
  ]
]
