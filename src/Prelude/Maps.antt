-- ===== src/Prelude/Maps.antt =====
-- The `HashMap` and `HashSet` of the standard library, over `u64` keys.
-- The program never depends on the order of their elements.
use Prim.Native.Nat.{ℕ}
use mathlib.Core.Path.{◌≡◌, refl}
use mathlib.Core.Bool.{Bool, false, ◌||◌}
use mathlib.Core.List.{List, [], ◌∷◌}
use mathlib.Core.Option.{Option, none, some}
use native.Mathlib.Omega.{arith}
use murmur.Prelude.Tests.{◌==◌, if◌then◌else◌}

module _ {ℓ} {V : Type ℓ} where
  unfoldable pub insert : ℕ → V → List (ℕ × V) → List (ℕ × V)
  insert key value ((k, v) ∷ entries) =
      if k == key then (key, value) ∷ entries else (k, v) ∷ insert key value entries
  insert key value [] = (key, value) ∷ []

  unfoldable pub lookup : ℕ → List (ℕ × V) → Option V
  lookup key ((k, v) ∷ entries) = if k == key then some v else lookup key entries
  lookup key [] = none

  pub lookup-insert :
      (key other : ℕ) (value : V) (entries : List (ℕ × V))
      → lookup other (insert key value entries)
        ≡ (if key == other then some value else lookup other entries)
  unfolding insert lookup
  lookup-insert key other value (e ∷ entries) =
      ground (arith, lookup-insert key other value entries)
  lookup-insert key other value [] = refl

-- `get(..).copied().unwrap_or(d)`
unfoldable pub lookup_or : ℕ → ℕ → List (ℕ × ℕ) → ℕ
lookup_or d k m = elim (lookup k m) [ none ↦ d | some v ↦ v ]

pub lookup_or-insert :
    (d k j v : ℕ) (m : List (ℕ × ℕ))
    → lookup_or d j (insert k v m) ≡ (if k == j then v else lookup_or d j m)
unfolding lookup_or
lookup_or-insert d k j v m = ground (arith, lookup-insert k j v m)

unfoldable pub member : ℕ → List ℕ → Bool
member k [] = false
member k (x ∷ xs) = x == k || member k xs

unfoldable pub insert_set : ℕ → List ℕ → List ℕ
insert_set k xs = if member k xs then xs else k ∷ xs

pub member-insert_set :
    (k j : ℕ) (xs : List ℕ) → member j (insert_set k xs) ≡ (k == j || member j xs)
unfolding insert_set member
member-insert_set k j xs = ground arith
