-- ===== src/Common/Split.antt =====
-- `strings.Split` of Go at a space, over texts, and the texts that hold no space.
use Prim.Native.Char.{Char, code}
use Prim.Native.String.{String, ◌++◌ as concat}
use Prim.Native.String.String.{◌∷◌ as char_cons}
use text.Mathlib.TextLemmas.{nil-append, append-nil, append_assoc, cons-append, head-eq_of_cons-eq}
use mathlib.Core.Path.{◌≡◌, refl, sym, ap, ◌∙◌}
use mathlib.Core.Logic.{◌≢◌, inl, inr}
use mathlib.Core.Bool.{Bool, true, false}
use mathlib.Core.List.{List, [], ◌∷◌}
use text.Mathlib.Text.{◌==◌}
use text.Mathlib.TextEquality.{eq_iff}
use llmapi_gate_way.Common.Tests.{Bool-cases}

abbrev letter : Char → String
letter c = String.◌∷◌ c String.[]

abbrev is_space : Char → Bool
is_space c = letter c == " "

-- The parts of a text, with the part read so far.
unfoldable pub split_from : String → String → List String
split_from cur String.[] = cur ∷ []
split_from cur (String.◌∷◌ c s) = elim (is_space c) [
  | true ↦ cur ∷ split_from "" s
  | false ↦ split_from (concat cur (letter c)) s
]

abbrev pub split_spaces : String → List String
split_spaces = split_from ""

abbrev pub LacksSpace : String → Type 0
LacksSpace String.[] = Unit {0}
LacksSpace (String.◌∷◌ c s) = (is_space c ≡ false) × LacksSpace s

letter-append :
    (cur s : String) (c : Char) → concat (concat cur (letter c)) s ≡ concat cur (String.◌∷◌ c s)
letter-append cur s c =
    append_assoc cur (letter c) s
    ∙ ap (concat cur) (cons-append c "" s ∙ ap (String.◌∷◌ c) (nil-append s))

-- Without a space there is one part.
pub split_from-LacksSpace : (cur s : String) → LacksSpace s → split_from cur s ≡ concat cur s ∷ []
unfolding split_from
split_from-LacksSpace cur String.[] h = rw (append-nil cur) refl
split_from-LacksSpace cur (String.◌∷◌ c s) (h, hs) =
    rw (h, split_from)
      (split_from-LacksSpace (concat cur (letter c)) s hs
        ∙ ap (λ t. t ∷ []) (letter-append cur s c))

-- The part before a space.
pub split_from-append :
    (cur p rest : String)
    → LacksSpace p
    → split_from cur (concat p (String.◌∷◌ " " rest)) ≡ concat cur p ∷ split_from "" rest
unfolding split_from
split_from-append cur String.[] rest h = rw (nil-append (String.◌∷◌ " " rest), append-nil cur) refl
split_from-append cur (String.◌∷◌ c p) rest (h, hp) =
    rw (cons-append c p (String.◌∷◌ " " rest), h, split_from)
      (split_from-append (concat cur (letter c)) p rest hp
        ∙ ap (λ t. t ∷ split_from "" rest) (letter-append cur p c))

split_from-ne-nil : (cur s : String) → split_from cur s ≢ []
unfolding split_from
split_from-ne-nil cur String.[] h = cc
split_from-ne-nil cur (String.◌∷◌ c s) h = elim (Bool-cases (is_space c)) [
  | inl space ↦ cc (rw (space, split_from) at h)
  | inr other ↦ split_from-ne-nil (concat cur (letter c)) s (rw (other, split_from) at h)
]

-- One part is the text itself, two parts are its text with a space between them; the last part
-- holds no space.
split_from-one : (cur s b : String) → split_from cur s ≡ b ∷ [] → (concat cur s ≡ b) × LacksSpace s
unfolding split_from
split_from-one cur String.[] b h = (append-nil cur ∙ (cc), tt)
split_from-one cur (String.◌∷◌ c s) b h = elim (Bool-cases (is_space c)) [
  | inl space ↦ absurd (split_from-ne-nil "" s (cc (rw (space, split_from) at h)))
  | inr other ↦
      let (e, lacks) = split_from-one (concat cur (letter c)) s b (rw (other, split_from) at h) in
      (sym (letter-append cur s c) ∙ e, (other, lacks))
]

letter-cons : (c : Char) (s : String) → String.◌∷◌ c s ≡ concat (letter c) s
letter-cons c s = sym (cons-append c "" s ∙ ap (String.◌∷◌ c) (nil-append s))

pub split_from-two :
    (cur s a b : String)
    → split_from cur s ≡ a ∷ b ∷ []
    → (concat cur s ≡ concat a (concat " " b)) × LacksSpace b
unfolding split_from
split_from-two cur String.[] a b h = absurd (cc h)
split_from-two cur (String.◌∷◌ c s) a b h = elim (Bool-cases (is_space c)) [
  | inl space ↦
      let parts : ◌≡◌ {A = List String} (cur ∷ split_from "" s) (a ∷ b ∷ []) =
        rw (space, split_from) at h in
      let (e, lacks) = split_from-one "" s b (cc parts) in
      let rest : s ≡ b = sym (nil-append s) ∙ e in
      let first : cur ≡ a = cc parts in
      (
        ap (concat cur) (letter-cons c s) ∙ rw ((eq_iff (letter c) " ").0 space, first, rest) refl,
        rw rest at lacks,
      )
  | inr other ↦
      let (e, lacks) = split_from-two (concat cur (letter c)) s a b (rw (other, split_from) at h) in
      (sym (letter-append cur s c) ∙ e, lacks)
]

pub LacksSpace-append : (s t : String) → LacksSpace s → LacksSpace t → LacksSpace (concat s t)
LacksSpace-append String.[] t hs ht = rw (nil-append t) ht
LacksSpace-append (String.◌∷◌ c s) t (h, hs) ht =
    rw (cons-append c s t) (h, LacksSpace-append s t hs ht)

-- Texts with different first characters are different.
pub differ_at_head :
    (a b : Char) (l m x y : String)
    → code a ≢ code b
    → concat (char_cons a l) x ≢ concat (char_cons b m) y
differ_at_head a b l m x y differs h =
    differs (ap code (head-eq_of_cons-eq (sym (cons-append a l x) ∙ h ∙ cons-append b m y)))
