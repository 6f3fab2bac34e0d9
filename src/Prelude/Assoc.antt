-- ===== src/Prelude/Assoc.antt =====
-- A Go map, or a key-value store, as an association list. The keys carry a Boolean equality.
use Prim.Native.Nat.{ℕ, ◌+◌}
use mathlib.Core.Path.{◌≡◌, refl}
use mathlib.Core.Option.{Option, none, some}
use mathlib.Core.List.{List, [], ◌∷◌}
use native.Mathlib.Omega.{arith}
use han_hermez_node.Prelude.Tests.{◌==◌, if◌then◌else◌}

-- Lookups and writes by a native number.
module _ {ℓ} {V : Type ℓ} where
  unfoldable pub lookup : ℕ → List (ℕ × V) → Option V
  lookup k [] = none
  lookup k ((j, v) ∷ m) = if j == k then some v else lookup k m

  unfoldable pub insert : ℕ → V → List (ℕ × V) → List (ℕ × V)
  insert key new [] = (key, new) ∷ []
  insert key new ((other, old) ∷ rest) =
      if other == key then (key, new) ∷ rest else (other, old) ∷ insert key new rest

  -- A write is seen under its key and nowhere else.
  pub lookup-insert :
      (key at : ℕ) (new : V) (entries : List (ℕ × V))
      → lookup at (insert key new entries) ≡ (if key == at then some new else lookup at entries)
  unfolding lookup insert
  lookup-insert key at new [] = refl
  lookup-insert key at new ((other, old) ∷ rest) = ground (arith, lookup-insert key at new rest)

-- The sum of a measure of the values.
module _ {ℓ} {V : Type ℓ} (f : V → ℕ) where
  unfoldable pub sum_values : List (ℕ × V) → ℕ
  sum_values [] = 0
  sum_values ((k, v) ∷ m) = f v + sum_values m
