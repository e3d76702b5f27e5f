-- ===== src/Domain/Ids/Digits.antt =====
-- src/domain/ids.rs: the decoder on one more digit.
use Prim.Native.Char.{Char}
use Prim.Native.String.{String, [], ◌∷◌}
use text.Mathlib.TextLemmas.{nil-append, cons-append}
use aegis_fs.Prelude.{
  ℕ, zero, suc, ◌<◌, Bool, true, false, ◌&&◌, Option, none, some, eqb, ◌≡◌, refl, ap, ◌∙◌, arith,
  inl, inr, Bool-cases, Option-cases,
}
use aegis_fs.Prelude.Result.{Result, ok, ◌>>=◌}
use aegis_fs.Prelude.Text.{◌<>◌}
use aegis_fs.Domain.Ids.{b32hex}
use aegis_fs.Domain.Ids.Decode.{digit_value, Decoder, decoder, feed, fed, decode_chars}

-- The digits have the values that the decoder gives them.

abbrev value_of : String → Option ℕ
value_of [] = none
value_of (c ∷ []) = digit_value c
value_of (c ∷ d ∷ s) = none

abbrev is_value : Option ℕ → ℕ → Bool
is_value none v = false
is_value (some w) v = eqb w v

abbrev all_below : (ℕ → Bool) → ℕ → Bool
all_below p zero = true
all_below p (suc n) = p n && all_below p n

below : (p : ℕ → Bool) (n k : ℕ) → all_below p n ≡ true → k < n → p k ≡ true
below p zero k h l = absurd (omega (arith, l))
below p (suc n) k h l = elim (Bool-cases (eqb k n)) [
  | inl e ↦ rw (eqb_path k n e) (ground (arith, h))
  | inr e ↦ below p n k (ground (arith, h)) (ground (arith, l, e))
]
  where
    eqb_path : (k n : ℕ) → eqb k n ≡ true → k ≡ n
    eqb_path k n e = ground (arith, e)

digits_valued : all_below (λ v. is_value (value_of (b32hex v)) v) 32 ≡ true
digits_valued = refl

decode_valued :
    (c : Char) (v : ℕ) (o : Option ℕ)
    → digit_value c ≡ o
    → (d : Decoder) → is_value (digit_value c) v ≡ true
    → (fed c (digit_value c) d >>= λ d'. ok d') ≡ ok (feed v d)
decode_valued c v none e d h = absurd (ground (arith, e, h))
decode_valued c v (some w) e d h =
    let same : w ≡ v = ground (arith, rw e at h) in rw e (rw same refl)

decode_one :
    (s : String) (v : ℕ) (d : Decoder)
    → is_value (value_of s) v ≡ true
    → decode_chars s d ≡ ok (feed v d)
unfolding decode_chars
decode_one [] v d h = absurd (cc)
decode_one (c ∷ []) v d h = decode_valued c v (digit_value c) refl d h
decode_one (c ∷ e ∷ s) v d h = absurd (cc)

pub ok_same : {A E : Type 0} {a b : A} → Path (Result E A) (ok a) (ok b) → a ≡ b
ok_same h = cc

decode-append :
    (s t : String) (d d' : Decoder)
    → decode_chars s d ≡ ok d'
    → decode_chars (s <> t) d ≡ decode_chars t d'
unfolding decode_chars
decode-append [] t d d' h =
    ap (λ x. decode_chars x d) (nil-append t) ∙ ap (decode_chars t) (ok_same h)
decode-append (c ∷ s) t d d' h =
    ap (λ x. decode_chars x d) (cons-append c s t) ∙ elim (Option-cases (digit_value c)) [
      | inl e ↦ absurd (ground (arith, rw e at h))
      | inr (v, e) ↦ rw e (decode-append s t (feed v d) d' (rw e at h))
    ]

-- The output with one more digit.
pub decode_digit :
    (out : String) (v : ℕ) (d : Decoder)
    → v < 32
    → decode_chars out decoder ≡ ok d
    → decode_chars (out <> b32hex v) decoder ≡ ok (feed v d)
decode_digit out v d l h =
    decode-append out (b32hex v) decoder d h
    ∙ decode_one (b32hex v) v d (below (λ w. is_value (value_of (b32hex w)) w) 32 v digits_valued l)
