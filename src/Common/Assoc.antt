-- ===== src/Common/Assoc.antt =====
-- Go's `map[string]V` and `sync.Map` as association lists: a missing key is `none`.
use Prim.Native.String.{String}
use mathlib.Core.Path.{◌≡◌, refl}
use mathlib.Core.Logic.{◌≢◌}
use mathlib.Core.Bool.{true, false}
use mathlib.Core.List.{List, [], ◌∷◌}
use mathlib.Core.Option.{Option, none, some}
use native.Mathlib.Omega.{arith}
use text.Mathlib.Text.{◌==◌}
use text.Mathlib.TextEquality.{eq_iff}
use text.Mathlib.TextPositions.{eq_refl}
use llmapi_gate_way.Common.Tests.{if◌then◌else◌}

abbrev pub Assoc {ℓ} : Type ℓ → Type ℓ
Assoc V = List (String × V)

pub eq_false_of_ne : (s t : String) → s ≢ t → (s == t) ≡ false
eq_false_of_ne s t differs = ground (arith, eq_iff s t)

pub ne_of_eq_false : (s t : String) → (s == t) ≡ false → s ≢ t
ne_of_eq_false s t h e = cc (rw (e, eq_refl t) at h)

module _ {ℓ} {V : Type ℓ} where
  unfoldable pub lookup : String → Assoc V → Option V
  lookup key [] = none
  lookup key ((name, held) ∷ rest) = if name == key then some held else lookup key rest

  -- `m[key] = value`: the first entry of the key is replaced, or a new one stands last.
  unfoldable pub insert : String → V → Assoc V → Assoc V
  insert key value [] = (key, value) ∷ []
  insert key value ((name, held) ∷ rest) = elim (name == key) [
    | true ↦ (name, value) ∷ rest
    | false ↦ (name, held) ∷ insert key value rest
  ]

  -- `delete(m, key)`
  unfoldable pub delete : String → Assoc V → Assoc V
  delete key [] = []
  delete key ((name, held) ∷ rest) =
      let others = delete key rest in if name == key then others else (name, held) ∷ others

  pub lookup-delete :
      (key other : String) (m : Assoc V)
      → lookup other (delete key m) ≡ (if key == other then none else lookup other m)
  unfolding lookup delete
  lookup-delete key other [] = ground arith
  lookup-delete key other ((name, held) ∷ rest) =
      ground
        (arith, lookup-delete key other rest, eq_iff name key, eq_iff name other, eq_iff key other)

  pub lookup-insert :
      (key other : String) (value : V) (m : Assoc V)
      → lookup other (insert key value m) ≡ (if key == other then some value else lookup other m)
  unfolding lookup insert
  lookup-insert key other value [] = refl
  lookup-insert key other value ((name, held) ∷ rest) = ground (
    arith,
    lookup-insert key other value rest,
    eq_iff name key,
    eq_iff name other,
    eq_iff key other,
  )

  pub lookup-insert_self :
      (key : String) (value : V) (m : Assoc V) → lookup key (insert key value m) ≡ some value
  lookup-insert_self key value m = rw (lookup-insert key key value m, eq_refl key)

  pub lookup-insert_ne :
      (key other : String) (value : V) (m : Assoc V)
      → (key == other) ≡ false
      → lookup other (insert key value m) ≡ lookup other m
  lookup-insert_ne key other value m differs = simp (lookup-insert, differs)

pub ruleset assoc_laws = (lookup-insert, lookup-delete, eq_refl)
