-- ===== src/Prelude/BTree/Keys.antt =====
-- The keys of a `BTreeMap` stand in ascending order, so none stands twice.
use Prim.Native.Nat.{ℕ, compare as compare_ℕ, Ordering}
use Prim.Native.Char.{code}
use Prim.Native.String.{String, [], ◌∷◌, compare, then}
use Prim.Native.String.compare
use mathlib.Core.Path.{◌≡◌, refl, sym, ◌∙◌}
use mathlib.Core.Option.{none}
use mathlib.Core.List
use native.Mathlib.Omega.{arith}
use text.Mathlib.TextEquality.{path_by_compare}
use text.Mathlib.TextPositions.{compare_refl}
use aegis_fs.Prelude.BTree.{insert}
use aegis_fs.Prelude.Eq.{string_eq, eq_iff}
use aegis_fs.Prelude.Map.{Map, lookup}
use aegis_fs.Prelude.Unique.{Unique}

then_trans :
    (x y z : ℕ) (o p q : Ordering)
    → (o ≡ Ordering.lt → p ≡ Ordering.lt → q ≡ Ordering.lt)
    → then (compare_ℕ x y) o ≡ Ordering.lt
    → then (compare_ℕ y z) p ≡ Ordering.lt
    → then (compare_ℕ x z) q ≡ Ordering.lt
then_trans x y z o p q h l m = ground arith

then_swap :
    (x y : ℕ) (o p : Ordering)
    → (o ≡ Ordering.gt → p ≡ Ordering.lt)
    → then (compare_ℕ x y) o ≡ Ordering.gt
    → then (compare_ℕ y x) p ≡ Ordering.lt
then_swap x y o p h l = ground arith

pub compare_trans :
    (s t u : String)
    → compare s t ≡ Ordering.lt
    → compare t u ≡ Ordering.lt
    → compare s u ≡ Ordering.lt
compare_trans [] [] u h k = k
compare_trans [] (d ∷ t) [] h k = ground (arith, compare.cons-nil d t)
compare_trans [] (d ∷ t) (e ∷ u) h k = compare.nil-cons e u
compare_trans (c ∷ s) [] u h k = ground (arith, compare.cons-nil c s)
compare_trans (c ∷ s) (d ∷ t) [] h k = ground (arith, compare.cons-nil d t)
compare_trans (c ∷ s) (d ∷ t) (e ∷ u) h k =
    compare.cons-cons c e s u
    ∙ then_trans (code c) (code d) (code e) (compare s t) (compare t u) (compare s u)
        (compare_trans s t u) (sym (compare.cons-cons c d s t) ∙ h)
        (sym (compare.cons-cons d e t u) ∙ k)

pub compare_swap : (s t : String) → compare s t ≡ Ordering.gt → compare t s ≡ Ordering.lt
compare_swap [] [] h = ground (arith, compare_refl "")
compare_swap [] (d ∷ t) h = ground (arith, compare.nil-cons d t)
compare_swap (c ∷ s) [] h = compare.nil-cons c s
compare_swap (c ∷ s) (d ∷ t) h =
    compare.cons-cons d c t s
    ∙ then_swap (code c) (code d) (compare s t) (compare t s) (compare_swap s t)
        (sym (compare.cons-cons c d s t) ∙ h)

module _ {V : Type 0} where
  -- Every key is greater than `k`.
  abbrev pub Above : String → Map String V → Type 0
  Above k List.[] = Unit
  Above k (List.◌∷◌ (j, _) m) = (compare k j ≡ Ordering.lt) × Above k m

  abbrev pub Ascending : Map String V → Type 0
  Ascending List.[] = Unit
  Ascending (List.◌∷◌ (k, _) m) = Above k m × Ascending m

  Above-trans :
      (k j : String) (m : Map String V) → compare k j ≡ Ordering.lt → Above j m → Above k m
  Above-trans k j List.[] h a = tt
  Above-trans k j (List.◌∷◌ (i, _) m) h a = (compare_trans k j i h a.0, Above-trans k j m h a.1)

  Above-insert :
      (j k : String) (v : V) (m : Map String V)
      → compare j k ≡ Ordering.lt
      → Above j m
      → Above j (insert k v m)
  unfolding insert
  Above-insert j k v List.[] h a = (h, tt)
  Above-insert j k v (List.◌∷◌ (i, w) m) h a = ground (arith, Above-insert j k v m h a.1)

  pub insert-Ascending :
      (k : String) (v : V) (m : Map String V) → Ascending m → Ascending (insert k v m)
  unfolding insert
  insert-Ascending k v List.[] a = (tt, tt)
  insert-Ascending k v (List.◌∷◌ (j, w) m) a = ground (
    arith,
    path_by_compare k j,
    compare_swap k j,
    Above-trans k j m,
    Above-insert j k v m,
    insert-Ascending k v m a.1,
  )

  Above-none : (k : String) (m : Map String V) → Above k m → lookup k m ≡ none
  unfolding lookup
  Above-none k List.[] a = refl
  Above-none k (List.◌∷◌ (j, w) m) a =
      ground (arith, Above-none k m a.1, eq_iff j k, compare_refl k)

  pub Ascending-Unique : (m : Map String V) → Ascending m → Unique m
  Ascending-Unique List.[] a = tt
  Ascending-Unique (List.◌∷◌ (k, v) m) a = (Above-none k m a.0, Ascending-Unique m a.1)
