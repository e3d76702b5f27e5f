-- ===== src/Prelude/Int.antt =====
-- `i64` values: signed integers over the native numbers, with the wrap-around of the release
-- build's addition and the saturating addition that the source asks for by name.
use Prim.Native.Nat.{ℕ, suc, ◌+◌, ◌-◌, ◌*◌, ◌%◌, ◌^◌, ◌≤◌, ◌<◌}
use mathlib.Core.Path.{◌≡◌}
use mathlib.Core.Bool.{Bool, true}
use mathlib.Core.Logic.{◌⊎◌}
use native.Mathlib.Omega.{arith}
use aegis_fs.Prelude.Tests.{ltb, leb, if◌then◌else◌}

-- `negsuc n` is -(n + 1).
pub data ℤ : Type 0 where
  pos : ℕ → ℤ
  negsuc : ℕ → ℤ

abbrev pub pos_part : ℤ → ℕ
pos_part (pos n) = n
pos_part (negsuc n) = 0

abbrev pub neg_part : ℤ → ℕ
neg_part (pos n) = 0
neg_part (negsuc n) = suc n

abbrev pub sub_ℕ : ℕ → ℕ → ℤ
sub_ℕ a b = if leb b a then pos (a - b) else negsuc (b - a - 1)

infix 50 ◌≤ℤ◌ ◌<ℤ◌
infixl 65 ◌+ℤ◌ ◌-ℤ◌
abbrev pub ◌≤ℤ◌ : ℤ → ℤ → Type 0
a ≤ℤ b = pos_part a + neg_part b ≤ pos_part b + neg_part a

abbrev pub ◌<ℤ◌ : ℤ → ℤ → Type 0
a <ℤ b = pos_part a + neg_part b < pos_part b + neg_part a

abbrev pub leb_ℤ : ℤ → ℤ → Bool
leb_ℤ a b = leb (pos_part a + neg_part b) (pos_part b + neg_part a)

abbrev pub ltb_ℤ : ℤ → ℤ → Bool
ltb_ℤ a b = ltb (pos_part a + neg_part b) (pos_part b + neg_part a)

abbrev pub ◌+ℤ◌ : ℤ → ℤ → ℤ
a +ℤ b = sub_ℕ (pos_part a + pos_part b) (neg_part a + neg_part b)

abbrev pub ◌-ℤ◌ : ℤ → ℤ → ℤ
a -ℤ b = sub_ℕ (pos_part a + neg_part b) (neg_part a + pos_part b)

abbrev pub i64_half : ℕ
i64_half = 2 ^ 63

abbrev pub i64_mod : ℕ
i64_mod = 2 ^ 64

abbrev pub InI64 : ℤ → Type 0
InI64 a = (pos_part a < i64_half) × (neg_part a ≤ i64_half)

-- The 64-bit pattern of an integer, and the integer of a pattern.
abbrev pub to_bits : ℤ → ℕ
to_bits (pos n) = n % i64_mod
to_bits (negsuc n) = i64_mod - 1 - n % i64_mod

abbrev pub of_bits : ℕ → ℤ
of_bits b = if ltb b i64_half then pos b else negsuc (i64_mod - 1 - b)

unfoldable pub wrap_i64 : ℤ → ℤ
wrap_i64 a = of_bits (to_bits a)

pub wrap_i64_id : (a : ℤ) → InI64 a → wrap_i64 a ≡ a
unfolding wrap_i64
wrap_i64_id (pos n) h = ground arith
wrap_i64_id (negsuc n) h = ground arith

-- `a + b` and `a - b` on `i64`.
unfoldable pub add_i64 : ℤ → ℤ → ℤ
add_i64 a b = wrap_i64 (a +ℤ b)

unfoldable pub sub_i64 : ℤ → ℤ → ℤ
sub_i64 a b = wrap_i64 (a -ℤ b)

pub add_i64_exact : (a b : ℤ) → InI64 (a +ℤ b) → add_i64 a b ≡ a +ℤ b
unfolding add_i64
add_i64_exact a b h = wrap_i64_id (a +ℤ b) h

pub sub_i64_exact : (a b : ℤ) → InI64 (a -ℤ b) → sub_i64 a b ≡ a -ℤ b
unfolding sub_i64
sub_i64_exact a b h = wrap_i64_id (a -ℤ b) h

abbrev pub i64_max : ℤ
i64_max = pos (i64_half - 1)

abbrev pub i64_min : ℤ
i64_min = negsuc (i64_half - 1)

abbrev pub clamp_i64 : ℤ → ℤ
clamp_i64 a = if ltb_ℤ i64_max a then i64_max else if ltb_ℤ a i64_min then i64_min else a

-- `i64::saturating_add` and `i64::saturating_sub`.
abbrev pub saturating_add : ℤ → ℤ → ℤ
saturating_add a b = clamp_i64 (a +ℤ b)

abbrev pub saturating_sub : ℤ → ℤ → ℤ
saturating_sub a b = clamp_i64 (a -ℤ b)

-- `n as i64` of a `u64`.
abbrev pub as_i64 : ℕ → ℤ
as_i64 n = of_bits (n % i64_mod)

pub leb_ℤ-total : (a b : ℤ) → (leb_ℤ a b ≡ true) ⊎ (leb_ℤ b a ≡ true)
leb_ℤ-total (pos a) (pos b) = ground arith
leb_ℤ-total (pos a) (negsuc b) = ground arith
leb_ℤ-total (negsuc a) (pos b) = ground arith
leb_ℤ-total (negsuc a) (negsuc b) = ground arith

-- `a.saturating_mul(n)` on `i64`, for an `n` that is not negative.
abbrev pub saturating_mul : ℤ → ℕ → ℤ
saturating_mul a n = clamp_i64 (sub_ℕ (pos_part a * n) (neg_part a * n))
