-- ===== src/Common/Assoc.antt =====
-- A map with number keys as an association list: `std::unordered_map` up to its order.
use Prim.Native.Nat.{ℕ, ◌+◌, ◌≤◌}
use mathlib.Core.Path.{◌≡◌, refl}
use mathlib.Core.List.{List, [], ◌∷◌}
use mathlib.Core.Option.{Option, none, some}
use native.Mathlib.Omega.{arith}
use dts_framework.Common.Tests.{◌==◌, if◌then◌else◌}
use dts_framework.Common.Lists.{length}

module _ {ℓ} {V : Type ℓ} where
  unfoldable pub lookup : ℕ → List (ℕ × V) → Option V
  lookup key [] = none
  lookup key ((here, val) ∷ more) =
      let rest = lookup key more in if here == key then some val else rest

  unfoldable pub insert : ℕ → V → List (ℕ × V) → List (ℕ × V)
  insert key val [] = (key, val) ∷ []
  insert key val ((here, old) ∷ more) =
      let rest = insert key val more in
      if here == key then (key, val) ∷ more else (here, old) ∷ rest

  -- A key occurs once at most; `erase` takes out all it finds.
  unfoldable pub erase : ℕ → List (ℕ × V) → List (ℕ × V)
  erase key [] = []
  erase key ((other, old) ∷ more) =
      let rest = erase key more in if other == key then rest else (other, old) ∷ rest

  pub lookup-insert :
      (key other : ℕ) (val : V)
      → (more : List (ℕ × V))
      → lookup other (insert key val more) ≡ (if key == other then some val else lookup other more)
  unfolding lookup insert
  lookup-insert key other val [] = refl
  lookup-insert key other val ((i, old) ∷ more) = ground (arith, lookup-insert key other val more)

  pub lookup-erase :
      (key other : ℕ) (more : List (ℕ × V))
      → lookup other (erase key more) ≡ (if key == other then none else lookup other more)
  unfolding lookup erase
  lookup-erase key other [] = ground arith
  lookup-erase key other ((i, old) ∷ more) = ground (arith, lookup-erase key other more)

  pub length-erase-le : (key : ℕ) (more : List (ℕ × V)) → length (erase key more) ≤ length more
  unfolding erase
  length-erase-le key [] = omega arith
  length-erase-le key ((i, old) ∷ more) = ground (arith, length-erase-le key more)

  pub length-insert_new :
      (key : ℕ) (val : V) (more : List (ℕ × V))
      → lookup key more ≡ none
      → length (insert key val more) ≡ length more + 1
  unfolding lookup insert
  length-insert_new key val [] h = omega arith
  length-insert_new key val ((i, old) ∷ more) h = ground (arith, length-insert_new key val more)
