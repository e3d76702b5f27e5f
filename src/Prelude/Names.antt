-- ===== src/Prelude/Names.antt =====
-- Lists of names: distinct ones, and the order of two names in a list.
use Prim.Native.Nat.{suc, ◌≤◌}
use Prim.Native.String.{String}
use mathlib.Core.Path.{◌≡◌, refl}
use mathlib.Core.Logic.{◌⊎◌, inl, inr, ◌↔◌}
use mathlib.Core.Bool.{Bool, true, false, not, ◌||◌, ◌&&◌}
use mathlib.Core.List.{List, [], ◌∷◌, ◌++◌}
use native.Mathlib.Omega.{arith}
use aegis_fs.Prelude.Tests.{Bool-cases}
use aegis_fs.Prelude.Lists.{
  any, length, filter, Elem, any-true, any_of, Elem-append_left, Elem-append_right,
}
use aegis_fs.Prelude.Eq.{string_eq, ◌==◌, eq_iff, eq_refl}

abbrev pub has : String → List String → Bool
has n names = any (λ x. x == n) names

pub has_iff : (n : String) (names : List String) → (has n names ≡ true) ↔ Elem n names
has_iff n names = (
  λ h. (let (a, m, e) = any-true (λ x. x == n) names h in rw ((eq_iff a n).0 e) at m),
  λ m. any_of (λ x. x == n) n names m (eq_refl n),
)

pub has-append : (n : String) (xs ys : List String) → has n (xs ++ ys) ≡ (has n xs || has n ys)
has-append n [] ys = refl
has-append n (x ∷ xs) ys = ground (arith, has-append n xs ys)

-- No name stands twice.
abbrev pub Distinct : List String → Type 0
Distinct [] = Unit
Distinct (x ∷ xs) = (has x xs ≡ false) × Distinct xs

pub Distinct-append :
    (n : String) (xs : List String) → has n xs ≡ false → Distinct xs → Distinct (xs ++ (n ∷ []))
Distinct-append n [] h d = (refl, tt)
Distinct-append n (x ∷ xs) h d =
    ground (arith, Distinct-append n xs, has-append x xs (n ∷ []), eq_iff n x, eq_iff x n)

-- `x` stands before an occurrence of `y`.
abbrev pub Before : (x y : String) → List String → Type 0
Before x y [] = ⊥
Before x y (z ∷ zs) = ((x ≡ z) × Elem y zs) ⊎ Before x y zs

pub Before-append : (x y : String) (xs ys : List String) → Before x y xs → Before x y (xs ++ ys)
Before-append x y [] ys b = absurd b
Before-append x y (z ∷ zs) ys (inl (e, m)) = inl (e, Elem-append_left y zs ys m)
Before-append x y (z ∷ zs) ys (inr b) = inr (Before-append x y zs ys b)

pub Before-last : (x y : String) (xs : List String) → Elem x xs → Before x y (xs ++ (y ∷ []))
Before-last x y [] m = absurd m
Before-last x y (z ∷ zs) (inl e) = inl (e, Elem-append_right y zs (y ∷ []) (inl refl))
Before-last x y (z ∷ zs) (inr m) = inr (Before-last x y zs m)

abbrev without : String → List String → List String
without x ys = filter (λ y. not (y == x)) ys

without-le : (x : String) (ys : List String) → length (without x ys) ≤ length ys
without-le x [] = omega arith
without-le x (y ∷ ys) = ground (arith, without-le x ys)

without-lt :
    (x : String) (ys : List String) → has x ys ≡ true → suc (length (without x ys)) ≤ length ys
without-lt x [] h = absurd (cc)
without-lt x (y ∷ ys) h = ground (arith, without-lt x ys, without-le x ys)

has-without : (n x : String) (ys : List String) → has n (without x ys) ≡ (has n ys && not (n == x))
has-without n x [] = refl
has-without n x (y ∷ ys) = ground (arith, has-without n x ys, eq_iff y n, eq_iff y x, eq_iff n x)

-- Distinct names out of a list are no more than its length.
pub Distinct-length :
    (xs ys : List String)
    → Distinct xs
    → ((n : String) → has n xs ≡ true → has n ys ≡ true)
    → length xs ≤ length ys
Distinct-length [] ys d h = omega arith
Distinct-length (x ∷ xs) ys d h =
    let shorter = without-lt x ys (h x (any_of (λ y. y == x) x (x ∷ xs) (inl refl) (eq_refl x))) in
    let rest = Distinct-length xs (without x ys) d.1 (λ n m.
      (let out = has-without n x ys in
        let in_ys = h n (ground (arith, m)) in ground (arith, out, in_ys, eq_iff n x, d.0, m))) in
    omega arith

-- As many distinct names out of a list as it is long are all of its names.
pub Distinct-full :
    (xs ys : List String)
    → Distinct xs
    → ((n : String) → has n xs ≡ true → has n ys ≡ true)
    → length xs ≡ length ys
    → (n : String) → has n ys ≡ true
    → has n xs ≡ true
Distinct-full xs ys d h e n m = elim (Bool-cases (has n xs)) [
  | inl q ↦ q
  | inr q ↦
      let more =
        Distinct-length (n ∷ xs) ys (q, d) (λ a r. ground (arith, h a, m, eq_iff n a, r)) in
      absurd (omega arith)
]
