-- ===== src/Prelude/BTree.antt =====
-- `BTreeMap` and `BTreeSet` with text keys, as lists in the order of the keys. They are read with
-- `Map.lookup`.
pub mod Keys
use Prim.Native.Nat.{Ordering}
use Prim.Native.String.{String, compare}
use mathlib.Core.Path.{◌≡◌, refl}
use mathlib.Core.Logic.{◌≢◌}
use mathlib.Core.Option.{some}
use mathlib.Core.List.{[], ◌∷◌}
use native.Mathlib.Omega.{arith}
use text.Mathlib.TextEquality.{eq_iff, path_by_compare}
use text.Mathlib.TextPositions.{compare_refl}
use aegis_fs.Prelude.Tests.{if◌then◌else◌}
use aegis_fs.Prelude.Eq.{◌==◌, string_eq}
use aegis_fs.Prelude.Map.{Map, lookup}

greater_ne : (s t : String) → compare s t ≡ Ordering.gt → s ≢ t
greater_ne s t h e = ground (arith, compare_refl t)

module _ {ℓ} {V : Type ℓ} where
  unfoldable pub insert : String → V → Map String V → Map String V
  insert k v [] = (k, v) ∷ []
  insert k v ((j, w) ∷ m) =
      let rest = insert k v m in
      elim (compare k j) [
        | Ordering.lt ↦ (k, v) ∷ (j, w) ∷ m
        | Ordering.eq ↦ (k, v) ∷ m
        | Ordering.gt ↦ (j, w) ∷ rest
      ]

  pub lookup-insert :
      (k j : String) (v : V) (m : Map String V)
      → lookup j (insert k v m) ≡ (if k == j then some v else lookup j m)
  unfolding insert lookup
  lookup-insert k j v [] = refl
  lookup-insert k j v ((i, w) ∷ m) =
      ground
        (lookup-insert k j v m, path_by_compare k i, greater_ne k i, eq_iff i j, eq_iff k j, arith)
