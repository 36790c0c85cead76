-- ===== src/Prelude/Assoc.antt =====
-- A Python dict as an association list in insertion order: a new key goes to the end, and a write
-- to an old key keeps its place.
use mathlib.Core.Path.{◌≡◌, refl}
use mathlib.Core.List.{List, [], ◌∷◌}
use mathlib.Core.Option.{Option, none, some}
use native.Mathlib.Omega.{arith}
use switchyard_llm.Prelude.Tests.{Eq, ◌==◌, if◌then◌else◌}

abbrev pub Dict {ℓ κ} : Type ℓ → Type κ → Type (ℓ ⊔ κ)
Dict K V = List (K × V)

module _ {ℓ κ} {K : Type ℓ} {V : Type κ} ⦃keys : Eq K⦄ where
  unfoldable pub insert : K → V → Dict K V → Dict K V
  insert key value [] = (key, value) ∷ []
  insert key value ((other, old) ∷ rest) =
      if other == key then (other, value) ∷ rest else (other, old) ∷ insert key value rest

  -- `d.pop(k, None)`, of the dict that is left.
  unfoldable pub delete : K → Dict K V → Dict K V
  delete key [] = []
  delete key ((other, old) ∷ rest) = if other == key then rest else (other, old) ∷ delete key rest

  unfoldable pub lookup : K → Dict K V → Option V
  lookup key [] = none
  lookup key ((other, value) ∷ rest) = if other == key then some value else lookup key rest

  pub lookup-insert :
      (key asked : K) (value : V) (dict : Dict K V)
      → lookup asked (insert key value dict)
        ≡ (if key == asked then some value else lookup asked dict)
  unfolding lookup insert
  lookup-insert key asked value [] = refl
  lookup-insert key asked value ((other, old) ∷ rest) = ground (
    arith,
    lookup-insert key asked value rest,
    keys.beq_iff other asked,
    keys.beq_iff other key,
    keys.beq_iff key asked,
  )

  pub lookup-insert_self :
      (key : K) (value : V) (dict : Dict K V) → lookup key (insert key value dict) ≡ some value
  lookup-insert_self key value dict =
      ground (arith, keys.beq_iff key key, lookup-insert key key value dict)
