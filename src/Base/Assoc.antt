-- ===== src/Base/Assoc.antt =====
-- Maps with numbers as keys, as association lists. Their order is never read.
use Prim.Native.Nat.{ℕ}
use mathlib.Core.Path.{◌≡◌, refl}
use mathlib.Core.List.{List, [], ◌∷◌}
use mathlib.Core.Option.{Option, none, some}
use native.Mathlib.Omega.{arith}
use nexus_zkvm.Base.Tests.{◌==◌, if◌then◌else◌}

abbrev pub Assoc {ℓ} : Type ℓ → Type ℓ
Assoc V = List (ℕ × V)

module _ {ℓ} {V : Type ℓ} where
  unfoldable pub lookup : Assoc V → ℕ → Option V
  lookup [] k = none
  lookup ((j, v) ∷ t) k = if j == k then some v else lookup t k

  unfoldable pub insert : Assoc V → ℕ → V → Assoc V
  insert [] k v = (k, v) ∷ []
  insert ((j, old) ∷ t) k v = if j == k then (j, v) ∷ t else (j, old) ∷ insert t k v

  pub lookup-insert :
      (t : Assoc V) (k j : ℕ) (v : V)
      → lookup (insert t k v) j ≡ (if k == j then some v else lookup t j)
  unfolding lookup insert
  lookup-insert [] k j v = refl
  lookup-insert ((i, old) ∷ t) k j v = ground (arith, lookup-insert t k j v)
