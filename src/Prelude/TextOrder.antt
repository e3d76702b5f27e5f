-- ===== src/Prelude/TextOrder.antt =====
-- The order of texts is total.
use Prim.Native.Nat.compare as compare_ℕ
use Prim.Native.Nat.{ℕ, zero, suc, Ordering, compare as compare_ℕ}
use Prim.Native.Char.{code}
use Prim.Native.String.compare
use Prim.Native.String.{String, [], ◌∷◌, compare, then}
use mathlib.Core.Path.{◌≡◌, refl}
use mathlib.Core.Logic.{◌⊎◌, inl, inr}
use mathlib.Core.Bool.{true}
use text.Mathlib.Text.{is_le}
use aegis_fs.Prelude.Text.{str_le}

abbrev reverse : Ordering → Ordering
reverse Ordering.lt = Ordering.gt
reverse Ordering.eq = Ordering.eq
reverse Ordering.gt = Ordering.lt

compare_ℕ-reverse : (m n : ℕ) → compare_ℕ n m ≡ reverse (compare_ℕ m n)
compare_ℕ-reverse zero zero = refl
compare_ℕ-reverse zero (suc n) = cc (compare_ℕ.suc-zero n, compare_ℕ.zero-suc n)
compare_ℕ-reverse (suc m) zero = cc (compare_ℕ.suc-zero m, compare_ℕ.zero-suc m)
compare_ℕ-reverse (suc m) (suc n) =
    cc (compare_ℕ.suc-suc m n, compare_ℕ.suc-suc n m, compare_ℕ-reverse m n)

then-reverse : (o r : Ordering) → then (reverse o) (reverse r) ≡ reverse (then o r)
then-reverse Ordering.lt r = refl
then-reverse Ordering.eq r = refl
then-reverse Ordering.gt r = refl

compare-reverse : (s t : String) → compare t s ≡ reverse (compare s t)
compare-reverse [] [] = refl
compare-reverse [] (d ∷ t) = cc (compare.nil-cons d t, compare.cons-nil d t)
compare-reverse (c ∷ s) [] = cc (compare.nil-cons c s, compare.cons-nil c s)
compare-reverse (c ∷ s) (d ∷ t) = cc (
  compare.cons-cons c d s t,
  compare.cons-cons d c t s,
  compare_ℕ-reverse (code c) (code d),
  compare-reverse s t,
  then-reverse (compare_ℕ (code c) (code d)) (compare s t),
)

is_le-reverse : (o : Ordering) → (is_le o ≡ true) ⊎ (is_le (reverse o) ≡ true)
is_le-reverse Ordering.lt = inl refl
is_le-reverse Ordering.eq = inl refl
is_le-reverse Ordering.gt = inr refl

pub str_le-total : (s t : String) → (str_le s t ≡ true) ⊎ (str_le t s ≡ true)
str_le-total s t = rw (compare-reverse s t) (is_le-reverse (compare s t))
