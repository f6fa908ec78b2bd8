-- ===== src/Common/Dict.antt =====
-- Maps with byte strings as keys, as association lists: Go's maps of strings.
use mathlib.Core.Path.{◌≡◌, refl}
use mathlib.Core.List.{List, [], ◌∷◌}
use mathlib.Core.Option.{Option, none, some}
use native.Mathlib.Omega.{arith}
use shfm.Common.Tests.{if◌then◌else◌}
use shfm.Common.Text.{Bytes, bytes_eq, bytes_eq_iff}

module _ {ℓ} {V : Type ℓ} where
  unfoldable pub lookup : Bytes → List (Bytes × V) → Option V
  lookup k [] = none
  lookup k ((j, v) ∷ m) = if bytes_eq j k then some v else lookup k m

  -- The value at `k`, changed or made by `f`: `v := m[k]; …; m[k] = …`.
  unfoldable pub alter : (Option V → V) → Bytes → List (Bytes × V) → List (Bytes × V)
  alter f k [] = (k, f none) ∷ []
  alter f k ((j, v) ∷ m) = if bytes_eq j k then (j, f (some v)) ∷ m else (j, v) ∷ alter f k m

  pub lookup-alter :
      (f : Option V → V) (k j : Bytes) (m : List (Bytes × V))
      → lookup j (alter f k m) ≡ (if bytes_eq k j then some (f (lookup j m)) else lookup j m)
  unfolding lookup alter
  lookup-alter f k j [] = refl
  lookup-alter f k j ((i, v) ∷ m) =
      ground (arith, bytes_eq_iff k j, bytes_eq_iff i k, bytes_eq_iff i j, lookup-alter f k j m)

  unfoldable pub insert : Bytes → V → List (Bytes × V) → List (Bytes × V)
  insert k v m = alter (λ _. v) k m

  unfoldable pub erase : Bytes → List (Bytes × V) → List (Bytes × V)
  erase k [] = []
  erase k ((j, v) ∷ m) = let rest = erase k m in if bytes_eq j k then rest else (j, v) ∷ rest

  pub lookup-erase :
      (k j : Bytes) (m : List (Bytes × V))
      → lookup j (erase k m) ≡ (if bytes_eq k j then none else lookup j m)
  unfolding lookup erase
  lookup-erase k j [] = ground arith
  lookup-erase k j ((i, v) ∷ m) =
      ground (arith, bytes_eq_iff k j, bytes_eq_iff i k, bytes_eq_iff i j, lookup-erase k j m)
