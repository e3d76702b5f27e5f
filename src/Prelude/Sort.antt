-- ===== src/Prelude/Sort.antt =====
-- The stable sort of the standard library, as an insertion sort: an element goes before the first
-- one that is not smaller, so equal elements keep their order.
use mathlib.Core.Path.{◌≡◌, refl}
use mathlib.Core.Logic.{◌⊎◌, ◌↔◌}
use mathlib.Core.Bool.{Bool, true}
use mathlib.Core.List.{List, [], ◌∷◌}
use native.Mathlib.Omega.{arith}
use aegis_fs.Prelude.Tests.{if◌then◌else◌}
use aegis_fs.Prelude.Lists.{Elem, length}

module _ {A : Type 0} (le : A → A → Bool) where
  unfoldable pub place : A → List A → List A
  place x [] = x ∷ []
  place x (y ∷ ys) = let rest = place x ys in if le x y then x ∷ y ∷ ys else y ∷ rest

  unfoldable pub sort_by : List A → List A
  unfolding place
  sort_by [] = []
  sort_by (x ∷ xs) = place x (sort_by xs)

  Elem-place : (a x : A) (ys : List A) → Elem a (place x ys) ↔ ((a ≡ x) ⊎ Elem a ys)
  unfolding place
  Elem-place a x [] = (λ m. m, λ m. m)
  Elem-place a x (y ∷ ys) = ground (arith, Elem-place a x ys)

  pub Elem-sort_by : (a : A) (xs : List A) → Elem a (sort_by xs) ↔ Elem a xs
  unfolding sort_by
  Elem-sort_by a [] = (λ m. m, λ m. m)
  Elem-sort_by a (x ∷ xs) = ground (arith, Elem-place a x (sort_by xs), Elem-sort_by a xs)

  length-place : (x : A) (ys : List A) → length (place x ys) ≡ length (x ∷ ys)
  unfolding place
  length-place x [] = refl
  length-place x (y ∷ ys) = ground (arith, length-place x ys)

  pub length-sort_by : (xs : List A) → length (sort_by xs) ≡ length xs
  unfolding sort_by
  length-sort_by [] = refl
  length-sort_by (x ∷ xs) = ground (arith, length-place x (sort_by xs), length-sort_by xs)

  -- Neighbours in order.
  abbrev pub Sorted : List A → Type 0
  Sorted [] = Unit
  Sorted (x ∷ []) = Unit
  Sorted (x ∷ y ∷ ys) = (le x y ≡ true) × Sorted (y ∷ ys)

  module _ (total : (a b : A) → (le a b ≡ true) ⊎ (le b a ≡ true)) where
    place-Sorted : (x : A) (ys : List A) → Sorted ys → Sorted (place x ys)
    unfolding place
    place-Sorted x [] s = tt
    place-Sorted x (y ∷ []) s = ground (arith, total x y)
    place-Sorted x (y ∷ z ∷ ys) s = ground (arith, total x y, place-Sorted x (z ∷ ys) s.1)

    pub sort_by-Sorted : (xs : List A) → Sorted (sort_by xs)
    unfolding sort_by
    sort_by-Sorted [] = tt
    sort_by-Sorted (x ∷ xs) = place-Sorted x (sort_by xs) (sort_by-Sorted xs)
