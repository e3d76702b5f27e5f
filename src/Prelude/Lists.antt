-- ===== src/Prelude/Lists.antt =====
-- Lists with native lengths and Boolean predicates, and the predicate `Elem` by recursion, which
-- the tactics open and build.
use Prim.Native.Nat.{ℕ, zero, suc, ◌+◌, ◌≤◌, ◌<◌}
use mathlib.Core.Path.{sym, ◌≡◌, refl, ap}
use mathlib.Core.Logic.{◌⊎◌, ◌↔◌, inl, inr}
use mathlib.Core.Bool.{Bool, true, false, ◌&&◌, ◌||◌}
use mathlib.Core.List.{List, [], ◌∷◌, ◌++◌, map}
use mathlib.Core.Option.{Option, none, some}
use native.Mathlib.Omega.{arith}
use aegis_fs.Prelude.Tests.{if◌then◌else◌, Bool-cases}

module _ {ℓ} {A : Type ℓ} where
  abbrev pub length : List A → ℕ
  length [] = 0
  length (x ∷ xs) = suc (length xs)

  abbrev pub any : (A → Bool) → List A → Bool
  any p [] = false
  any p (x ∷ xs) = p x || any p xs

  abbrev pub all : (A → Bool) → List A → Bool
  all p [] = true
  all p (x ∷ xs) = p x && all p xs

  abbrev pub find : (A → Bool) → List A → Option A
  find p [] = none
  find p (x ∷ xs) = let rest = find p xs in if p x then some x else rest

  abbrev pub filter : (A → Bool) → List A → List A
  filter p [] = []
  filter p (x ∷ xs) = let rest = filter p xs in if p x then x ∷ rest else rest

  abbrev pub count_if : (A → Bool) → List A → ℕ
  count_if p xs = length (filter p xs)

  abbrev pub take : ℕ → List A → List A
  take zero xs = []
  take (suc n) [] = []
  take (suc n) (x ∷ xs) = x ∷ take n xs

  abbrev pub drop : ℕ → List A → List A
  drop zero xs = xs
  drop (suc n) [] = []
  drop (suc n) (x ∷ xs) = drop n xs

  pub length-append : (xs ys : List A) → length (xs ++ ys) ≡ length xs + length ys
  length-append [] ys = omega arith
  length-append (x ∷ xs) ys = omega (arith, length-append xs ys)

module _ {A : Type 0} where
  abbrev pub Elem : A → List A → Type 0
  Elem a [] = ⊥
  Elem a (x ∷ xs) = (a ≡ x) ⊎ Elem a xs

  pub Elem-append_left : (a : A) (xs ys : List A) → Elem a xs → Elem a (xs ++ ys)
  Elem-append_left a [] ys m = absurd m
  Elem-append_left a (x ∷ xs) ys (inl e) = inl e
  Elem-append_left a (x ∷ xs) ys (inr m) = inr (Elem-append_left a xs ys m)

  pub Elem-append_right : (a : A) (xs ys : List A) → Elem a ys → Elem a (xs ++ ys)
  Elem-append_right a [] ys m = m
  Elem-append_right a (x ∷ xs) ys m = inr (Elem-append_right a xs ys m)

  pub Elem-append_cases : (a : A) (xs ys : List A) → Elem a (xs ++ ys) → Elem a xs ⊎ Elem a ys
  Elem-append_cases a [] ys m = inr m
  Elem-append_cases a (x ∷ xs) ys (inl e) = inl (inl e)
  Elem-append_cases a (x ∷ xs) ys (inr m) = ground (arith, Elem-append_cases a xs ys m)

  Elem-of-filter :
      (p : A → Bool) (a : A) (xs : List A) → Elem a (filter p xs) → Elem a xs × (p a ≡ true)
  Elem-of-filter p a [] m = absurd m
  Elem-of-filter p a (x ∷ xs) m = ground (arith, Elem-of-filter p a xs)

  Elem-to-filter :
      (p : A → Bool) (a : A) (xs : List A) → Elem a xs → p a ≡ true → Elem a (filter p xs)
  Elem-to-filter p a [] m h = absurd m
  Elem-to-filter p a (x ∷ xs) m h = ground (arith, Elem-to-filter p a xs)

  -- What a filter keeps.
  pub Elem-filter :
      (p : A → Bool) (a : A) (xs : List A) → Elem a (filter p xs) ↔ (Elem a xs × (p a ≡ true))
  Elem-filter p a xs = (Elem-of-filter p a xs, λ h. Elem-to-filter p a xs h.0 h.1)

  pub count_if-le-length : (p : A → Bool) (xs : List A) → count_if p xs ≤ length xs
  count_if-le-length p [] = omega arith
  count_if-le-length p (x ∷ xs) = let le = count_if-le-length p xs in ground arith

  -- Counts grow with the test, and strictly if an element makes the difference.
  pub count_if-le :
      (q p : A → Bool)
      → ((a : A) → q a ≡ true → p a ≡ true)
      → (xs : List A) → count_if q xs ≤ count_if p xs
  count_if-le q p h [] = omega arith
  count_if-le q p h (x ∷ xs) = elim (Bool-cases (q x)) [
    | inl e ↦ rw (e, h x e) (let less = count_if-le q p h xs in omega arith)
    | inr e ↦ let less = count_if-le q p h xs in ground arith
  ]

  pub count_if-lt :
      (q p : A → Bool)
      → ((a : A) → q a ≡ true → p a ≡ true)
      → (a : A) → p a ≡ true
      → q a ≡ false
      → (xs : List A) → Elem a xs
      → count_if q xs < count_if p xs
  count_if-lt q p h a hp hq [] m = absurd m
  count_if-lt q p h a hp hq (x ∷ xs) (inl e) =
      let le = count_if-le q p h xs in rw (sym e) (rw (hp, hq) (omega arith))
  count_if-lt q p h a hp hq (x ∷ xs) (inr m) =
      let less = count_if-lt q p h a hp hq xs m in
      elim (Bool-cases (q x)) [ inl e ↦ rw (e, h x e) (omega arith) | inr e ↦ ground arith ]

  -- `any` and `all` against membership.
  pub any-true : (p : A → Bool) (xs : List A) → any p xs ≡ true → (a : A) × Elem a xs × (p a ≡ true)
  any-true p [] h = absurd (cc)
  any-true p (x ∷ xs) h = elim (Bool-cases (p x)) [
    | inl e ↦ (x, inl refl, e)
    | inr e ↦ let (a, m, q) = any-true p xs (ground arith) in (a, inr m, q)
  ]

  pub any-false : (p : A → Bool) (a : A) (xs : List A) → any p xs ≡ false → Elem a xs → p a ≡ false
  any-false p a [] h m = absurd m
  any-false p a (x ∷ xs) h m = ground (arith, any-false p a xs)

  pub any_of : (p : A → Bool) (a : A) (xs : List A) → Elem a xs → p a ≡ true → any p xs ≡ true
  any_of p a [] m h = absurd m
  any_of p a (x ∷ xs) m h = ground (arith, any_of p a xs)

  pub all-true : (p : A → Bool) (a : A) (xs : List A) → all p xs ≡ true → Elem a xs → p a ≡ true
  all-true p a [] h m = absurd m
  all-true p a (x ∷ xs) h m = ground (arith, all-true p a xs)

  pub all_of : (p : A → Bool) (xs : List A) → ((a : A) → Elem a xs → p a ≡ true) → all p xs ≡ true
  all_of p [] h = refl
  all_of p (x ∷ xs) h = rw (h x (inl refl)) (all_of p xs (λ a m. h a (inr m)))

  pub all-false :
      (p : A → Bool) (xs : List A) → all p xs ≡ false → (a : A) × Elem a xs × (p a ≡ false)
  all-false p [] h = absurd (cc)
  all-false p (x ∷ xs) h = elim (Bool-cases (p x)) [
    | inr e ↦ (x, inl refl, e)
    | inl e ↦ let (a, m, q) = all-false p xs (ground arith) in (a, inr m, q)
  ]

  -- The first element that passes a test.
  pub find-some :
      (p : A → Bool) (xs : List A) (a : A) → find p xs ≡ some a → Elem a xs × (p a ≡ true)
  find-some p [] a h = absurd (cc)
  find-some p (x ∷ xs) a h = ground (arith, find-some p xs a)

  pub find-any : (p : A → Bool) (xs : List A) → any p xs ≡ true → (a : A) × (find p xs ≡ some a)
  find-any p [] h = absurd (cc)
  find-any p (x ∷ xs) h = elim (Bool-cases (p x)) [
    | inl e ↦ (x, rw e)
    | inr e ↦ let (a, q) = find-any p xs (ground arith) in (a, rw e q)
  ]

  pub find-none : (p : A → Bool) (xs : List A) → find p xs ≡ none → any p xs ≡ false
  find-none p [] h = refl
  find-none p (x ∷ xs) h = ground (arith, find-none p xs)

  pub find_cases :
      (p : A → Bool) (xs : List A)
      → ((any p xs ≡ true) × ((a : A) × (find p xs ≡ some a)))
        ⊎ ((any p xs ≡ false) × (find p xs ≡ none))
  find_cases p xs = elim (Bool-cases (any p xs)) [
    | inl h ↦ inl (h, find-any p xs h)
    | inr h ↦ inr (h, none-of xs h)
  ]
    where
      none-of : (xs : List A) → any p xs ≡ false → find p xs ≡ none
      none-of [] h = refl
      none-of (x ∷ xs) h = ground (arith, none-of xs)

module _ {A B : Type 0} where
  pub Elem-map : (f : A → B) (a : A) (xs : List A) → Elem a xs → Elem (f a) (map f xs)
  Elem-map f a [] m = absurd m
  Elem-map f a (x ∷ xs) (inl e) = inl (ap f e)
  Elem-map f a (x ∷ xs) (inr m) = inr (Elem-map f a xs m)

  pub Elem-of-map :
      (f : A → B) (b : B) (xs : List A) → Elem b (map f xs) → (a : A) × Elem a xs × (b ≡ f a)
  Elem-of-map f b [] m = absurd m
  Elem-of-map f b (x ∷ xs) (inl e) = (x, inl refl, e)
  Elem-of-map f b (x ∷ xs) (inr m) = let (a, n, e) = Elem-of-map f b xs m in (a, inr n, e)
