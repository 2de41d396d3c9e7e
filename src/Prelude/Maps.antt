-- ===== src/Prelude/Maps.antt =====
-- Go's `map[string]V` as an association list in the order in which a `range` over it runs.
-- Go leaves that order open, so the laws below speak of lookups and of membership.
use mathlib.Core.Path.{◌≡◌, refl}
use mathlib.Core.Bool.{true}
use mathlib.Core.Option.{Option, none, some}
use mathlib.Core.List.{List, [], ◌∷◌}
use native.Mathlib.Omega.{arith}
use Prim.Native.String.{String}
use text.Mathlib.Text.{◌==◌ as str_eq}
use text.Mathlib.TextEquality.{eq_iff}
use feishu_agent_mem.Prelude.Tests.{if◌then◌else◌}

abbrev pub Map {ℓ} : Type ℓ → Type ℓ
Map V = List (String × V)

module _ {ℓ} {V : Type ℓ} where
  -- v, ok := m[k]
  unfoldable pub lookup : String → Map V → Option V
  lookup k [] = none
  lookup k ((j, v) ∷ m) = if str_eq j k then some v else lookup k m

  -- m[k] = v
  unfoldable pub insert : String → V → Map V → Map V
  insert k v [] = (k, v) ∷ []
  insert k v ((j, w) ∷ m) =
      let rest = insert k v m in if str_eq j k then (j, v) ∷ m else (j, w) ∷ rest

  -- delete(m, k)
  unfoldable pub erase : String → Map V → Map V
  erase k [] = []
  erase k ((j, w) ∷ m) = let rest = erase k m in if str_eq j k then rest else (j, w) ∷ rest

  pub lookup-insert :
      (written read : String) (v : V) (m : Map V)
      → lookup read (insert written v m) ≡ (if str_eq written read then some v else lookup read m)
  unfolding lookup insert
  lookup-insert written read v [] = refl
  lookup-insert written read v ((at, old) ∷ m) = ground (
    arith,
    lookup-insert written read v m,
    eq_iff at read,
    eq_iff at written,
    eq_iff written read,
  )

  pub lookup-erase :
      (k j : String) (m : Map V) → lookup j (erase k m) ≡ (if str_eq k j then none else lookup j m)
  unfolding lookup erase
  lookup-erase k j [] = ground arith
  lookup-erase k j ((i, w) ∷ m) =
      ground (arith, eq_iff k j, eq_iff i k, eq_iff i j, lookup-erase k j m)

pub str_eq_refl : (s : String) → str_eq s s ≡ true
str_eq_refl s = (eq_iff s s).1 refl

-- m[k] of a map into slices: a missing key reads as the nil slice.
module _ {ℓ} {A : Type ℓ} where
  unfoldable pub slice_at : String → Map (List A) → List A
  slice_at k m = elim (lookup k m) [ none ↦ [] | some xs ↦ xs ]

  pub slice_at-insert :
      (k j : String) (xs : List A) (m : Map (List A))
      → slice_at j (insert k xs m) ≡ (if str_eq k j then xs else slice_at j m)
  unfolding slice_at
  slice_at-insert k j xs m = ground (arith, lookup-insert k j xs m)

-- A read of a map behind a write of it.
pub ruleset map_laws = (lookup-insert, lookup-erase, slice_at-insert, str_eq_refl)
