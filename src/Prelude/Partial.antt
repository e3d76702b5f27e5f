-- ===== src/Prelude/Partial.antt =====
-- `filter_map` of the iterators, and what it keeps.
use mathlib.Core.Path.{◌≡◌, sym, refl, ap, ◌∙◌}
use mathlib.Core.Logic.{◌⊎◌, ◌↔◌, inl, inr}
use mathlib.Core.List.{List, [], ◌∷◌}
use mathlib.Core.Option.{Option, none, some}
use aegis_fs.Prelude.Lists.{Elem}

abbrev in_front {ℓ} : {B : Type ℓ} → Option B → List B → List B
in_front none ys = ys
in_front (some y) ys = y ∷ ys

abbrev pub filter_map {ℓ κ} : {A : Type ℓ} {B : Type κ} → (A → Option B) → List A → List B
filter_map f [] = []
filter_map f (x ∷ xs) = in_front (f x) (filter_map f xs)

module _ {B : Type 0} (b : B) where
  of-in_front : (o : Option B) (ys : List B) → Elem b (in_front o ys) → (o ≡ some b) ⊎ Elem b ys
  of-in_front none ys m = inr m
  of-in_front (some y) ys (inl e) = inl (cc)
  of-in_front (some y) ys (inr m) = inr m

  to-in_front : (o : Option B) (ys : List B) → (o ≡ some b) ⊎ Elem b ys → Elem b (in_front o ys)
  to-in_front none ys (inl e) = absurd (cc)
  to-in_front none ys (inr m) = m
  to-in_front (some y) ys (inl e) = inl (cc)
  to-in_front (some y) ys (inr m) = inr m

module _ {A B : Type 0} (f : A → Option B) (b : B) where
  of-filter_map : (xs : List A) → Elem b (filter_map f xs) → (a : A) × Elem a xs × (f a ≡ some b)
  of-filter_map [] m = absurd m
  of-filter_map (x ∷ xs) m = elim (of-in_front b (f x) (filter_map f xs) m) [
    | inl e ↦ (x, inl refl, e)
    | inr n ↦ let (a, q, e) = of-filter_map xs n in (a, inr q, e)
  ]

  to-filter_map : (a : A) (xs : List A) → Elem a xs → f a ≡ some b → Elem b (filter_map f xs)
  to-filter_map a [] m e = absurd m
  to-filter_map a (x ∷ xs) (inl q) e =
      to-in_front b (f x) (filter_map f xs) (inl (ap f (sym q) ∙ e))
  to-filter_map a (x ∷ xs) (inr m) e =
      to-in_front b (f x) (filter_map f xs) (inr (to-filter_map a xs m e))

  pub Elem-filter_map :
      (xs : List A) → Elem b (filter_map f xs) ↔ ((a : A) × Elem a xs × (f a ≡ some b))
  Elem-filter_map xs = (of-filter_map xs, λ found. to-filter_map found.0 xs found.1 found.2)
