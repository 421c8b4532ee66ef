-- ===== src/Replay/Similarity.antt =====
-- `contentSimilarity` and `trigrams` of internal/replay/service.go. A Go map from text to `true` is a
-- list of different texts; `utf8.ValidString` holds of every text made from runes.
use llmapi_gate_way.Common.{
  ℕ, suc, ◌+◌, ◌-◌, ◌≤◌, String, ◌≡◌, refl, sym, ◌∙◌, inl, inr, Bool, true, false, ◌&&◌, ◌||◌,
  Option, none, some, List, [], ◌∷◌, arith, ◌==◌, eq_iff, eqb, if◌then◌else◌, Bool-cases, length,
}
use llmapi_gate_way.Common.Int.{pos}
use llmapi_gate_way.Common.Float.{Float64, HasRatios}

-- `set[t] = true`
unfoldable pub add : String → List String → List String
add t [] = t ∷ []
add t (u ∷ us) = elim (u == t) [ true ↦ u ∷ us | false ↦ u ∷ add t us ]

-- `set[t]`
unfoldable pub has : String → List String → Bool
has t [] = false
has t (u ∷ us) = (u == t) || has t us

-- The first three runes, if there are so many.
abbrev pub first_three : String → Option String
first_three String.[] = none
first_three (String.◌∷◌ a String.[]) = none
first_three (String.◌∷◌ a (String.◌∷◌ b String.[])) = none
first_three (String.◌∷◌ a (String.◌∷◌ b (String.◌∷◌ c s))) =
    some (String.◌∷◌ a (String.◌∷◌ b (String.◌∷◌ c String.[])))

abbrev pub add_some : Option String → List String → List String
add_some none set = set
add_some (some t) set = add t set

-- The loop of `trigrams`, which starts at each rune.
unfoldable pub trigrams_from : String → List String → List String
trigrams_from String.[] set = set
trigrams_from (String.◌∷◌ c s) set = trigrams_from s (add_some (first_three (String.◌∷◌ c s)) set)

abbrev pub trigrams : String → List String
trigrams s = trigrams_from s []

-- The elements of one set that another has.
unfoldable pub common : List String → List String → ℕ
common [] set_b = 0
common (t ∷ ts) set_b = let n = common ts set_b in if has t set_b then suc n else n

module _ (fl : Float64) where
  abbrev pub one : fl.F
  one = fl.of_int (pos 1)

  -- The ratio of two counts, `1.0` if there is nothing to compare.
  unfoldable pub ratio : ℕ → ℕ → fl.F
  ratio n m = if eqb m 0 then one else fl.div (fl.of_int (pos n)) (fl.of_int (pos m))

  unfoldable pub content_similarity : String → String → fl.F
  content_similarity a b =
      if (a == "") && (b == "")
      then one
      else if (a == "") || (b == "")
      then fl.of_int (pos 0)
      else let shared = common (trigrams a) (trigrams b) in
        ratio shared (length (trigrams a) + length (trigrams b) - shared)

abbrev Distinct : List String → Type 0
Distinct [] = Unit {0}
Distinct (t ∷ ts) = (has t ts ≡ false) × Distinct ts

has-add : (x t : String) (set : List String) → has x (add t set) ≡ ((t == x) || has x set)
unfolding has add
has-add x t [] = refl
has-add x t (u ∷ us) = ground (arith, has-add x t us, eq_iff u t, eq_iff u x, eq_iff t x)

add-Distinct : (t : String) (set : List String) → Distinct set → Distinct (add t set)
unfolding has add
add-Distinct t [] h = (refl, tt)
add-Distinct t (u ∷ us) (h, hs) = elim (Bool-cases (u == t)) [
  | inl same ↦ rw (same, add) (h, hs)
  | inr other ↦
      rw (other, add)
        (has-add u t us ∙ ground (arith, eq_iff t u, eq_iff u t), add-Distinct t us hs)
]

add_some-Distinct :
    (t : Option String) (set : List String) → Distinct set → Distinct (add_some t set)
add_some-Distinct none set h = h
add_some-Distinct (some t) set h = add-Distinct t set h

trigrams_from-Distinct :
    (s : String) (set : List String) → Distinct set → Distinct (trigrams_from s set)
unfolding trigrams_from
trigrams_from-Distinct String.[] set h = h
trigrams_from-Distinct (String.◌∷◌ c s) set h =
    trigrams_from-Distinct s (add_some (first_three (String.◌∷◌ c s)) set)
      (add_some-Distinct (first_three (String.◌∷◌ c s)) set h)

-- How the count grows with the second set.
common-cons :
    (b : String) (xs ys : List String)
    → Distinct xs
    → has b ys ≡ false
    → common xs (b ∷ ys) ≡ (if has b xs then 1 else 0) + common xs ys
unfolding common has
common-cons b [] ys d h = refl
common-cons b (x ∷ xs) ys (fresh, d) h =
    let rest : common xs (b ∷ ys) ≡ (if has b xs then 1 else 0) + common xs ys =
      common-cons b xs ys d h in
    elim (Bool-cases (x == b)) [
      | inl same ↦
          let e : x ≡ b = (eq_iff x b).0 same in
          let gone : has b xs ≡ false = rw e at fresh in
          let new : has x ys ≡ false = rw (sym e) at h in ground (arith, eq_iff b x)
      | inr other ↦ ground (arith, eq_iff b x, eq_iff x b)
    ]

common-nil : (xs : List String) → common xs [] ≡ 0
unfolding common has
common-nil [] = refl
common-nil (x ∷ xs) = common-nil xs

common_comm : (xs ys : List String) → Distinct xs → Distinct ys → common xs ys ≡ common ys xs
unfolding common
common_comm xs [] d e = common-nil xs
common_comm xs (y ∷ ys) d (fresh, e) =
    let rest : common xs ys ≡ common ys xs = common_comm xs ys d e in
    ground (arith, common-cons y xs ys d fresh)

common-le-left : (xs ys : List String) → common xs ys ≤ length xs
unfolding common
common-le-left [] ys = omega arith
common-le-left (x ∷ xs) ys = ground (arith, common-le-left xs ys)

trigrams_comm : (a b : String) → common (trigrams a) (trigrams b) ≡ common (trigrams b) (trigrams a)
trigrams_comm a b =
    common_comm (trigrams a) (trigrams b) (trigrams_from-Distinct a [] tt)
      (trigrams_from-Distinct b [] tt)

-- The similarity does not depend on the order of the two texts.
pub content_similarity_comm :
    (fl : Float64) (a b : String) → content_similarity fl a b ≡ content_similarity fl b a
unfolding content_similarity
content_similarity_comm fl a b =
    let total : length (trigrams a) + length (trigrams b)
        ≡ length (trigrams b) + length (trigrams a) =
      omega arith in
    elim (Bool-cases (a == "")) [
      | inl no_a ↦ elim (Bool-cases (b == "")) [
        | inl no_b ↦ rw (no_a, no_b) refl
        | inr some_b ↦ rw (no_a, some_b) refl
      ]
      | inr some_a ↦ elim (Bool-cases (b == "")) [
        | inl no_b ↦ rw (some_a, no_b) refl
        | inr some_b ↦ rw (some_a, some_b, trigrams_comm a b, total) refl
      ]
    ]

ratio-le-one :
    (fl : Float64)
    → HasRatios fl
    → fl.lt (one fl) (one fl) ≡ false
    → (n m : ℕ) → n ≤ m
    → fl.lt (one fl) (ratio fl n m) ≡ false
unfolding ratio
ratio-le-one fl exact unit n m h = elim (Bool-cases (eqb m 0)) [
  | inl nothing ↦ rw (nothing, ratio) unit
  | inr something ↦ rw (something, ratio) (exact.ratio-le-one n m h (ground arith))
]

-- It is never above 1.
pub content_similarity-le-one :
    (fl : Float64)
    → HasRatios fl
    → fl.lt (one fl) (one fl) ≡ false
    → (a b : String) → fl.lt (one fl) (content_similarity fl a b) ≡ false
unfolding content_similarity
content_similarity-le-one fl exact unit a b =
    let left : common (trigrams a) (trigrams b) ≤ length (trigrams a) =
      common-le-left (trigrams a) (trigrams b) in
    let right : common (trigrams b) (trigrams a) ≤ length (trigrams b) =
      common-le-left (trigrams b) (trigrams a) in
    let same : common (trigrams a) (trigrams b) ≡ common (trigrams b) (trigrams a) =
      trigrams_comm a b in
    let bounded : fl.lt (one fl) (
          ratio fl (common (trigrams a) (trigrams b))
            (length (trigrams a) + length (trigrams b) - common (trigrams a) (trigrams b)))
        ≡ false =
      ratio-le-one fl exact unit _ _ (ground arith) in
    elim (Bool-cases (a == "")) [
      | inl no_a ↦ elim (Bool-cases (b == "")) [
        | inl no_b ↦ rw (no_a, no_b) unit
        | inr some_b ↦ rw (no_a, some_b) exact.zero-le-one
      ]
      | inr some_a ↦ elim (Bool-cases (b == "")) [
        | inl no_b ↦ rw (some_a, no_b) exact.zero-le-one
        | inr some_b ↦ rw (some_a, some_b) bounded
      ]
    ]

-- Two texts that both have fewer than three runes, and are not empty, count as the same.
pub content_similarity-short :
    (fl : Float64) (a b : String)
    → (a == "") ≡ false
    → (b == "") ≡ false
    → trigrams a ≡ []
    → trigrams b ≡ []
    → content_similarity fl a b ≡ one fl
unfolding content_similarity common ratio
content_similarity-short fl a b some_a some_b none_a none_b =
    rw (some_a, some_b, none_a, none_b, eqb) refl
