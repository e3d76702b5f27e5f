-- ===== src/Domain/Ids/Steps.antt =====
-- src/domain/ids.rs: what the decoder has of the bytes, byte by byte.
use aegis_fs.Prelude.{
  ℕ, zero, suc, ◌+◌, ◌-◌, ◌*◌, ◌/◌, ◌%◌, ◌^◌, ◌≤◌, ◌<◌, List, ◌++◌, ◌≡◌, refl, sym, arith, inl, inr,
  ◌⊎◌,
}
use aegis_fs.Domain.Ids.Decode.{Decoder, feed}

-- What the decoder makes of the output when the encoder holds `bits` bits of `buffer`: all of the
-- bytes, or all but the last, of which it has the high bits.
abbrev pub Pending : List ℕ → (buffer bits : ℕ) → Decoder → Type 0
Pending done buffer bits d =
    ((bits ≡ 0) × (d.bits ≡ 0) × (d.out ≡ done))
    ⊎ ((b : ℕ) × (bits ≤ 4)
        × (1 ≤ bits)
        × (bits + d.bits ≡ 8)
        × (done ≡ d.out ++ List.◌∷◌ b List.[])
        × (d.buffer % 2 ^ d.bits * 2 ^ bits + buffer % 2 ^ bits ≡ b))

-- The encoder's buffer with a further byte.
abbrev pub shifted : (buffer byte : ℕ) → ℕ
shifted buffer byte = buffer * 256 % 2 ^ 64 + byte

abbrev pub digit_at : (buffer bits : ℕ) → ℕ
digit_at buffer bits = buffer / 2 ^ bits % 32

abbrev pub Follows : List ℕ → (buffer byte bits : ℕ) → Decoder → Type 0
Follows done buffer byte bits d =
    Pending (done ++ List.◌∷◌ byte List.[]) (shifted buffer byte) bits d

pub byte_0 :
    (done : List ℕ) (buffer byte : ℕ) (d : Decoder)
    → byte < 256
    → d.bits ≡ 0
    → d.out ≡ done
    → Follows done buffer byte 3 (feed (digit_at (shifted buffer byte) 3) d)
byte_0 done buffer byte d l e o =
    rw e (inr (byte, omega arith, omega arith, omega arith, rw o refl, omega arith))

pub byte_1 :
    (done : List ℕ) (buffer byte b : ℕ) (d : Decoder)
    → byte < 256
    → d.bits ≡ 7
    → done ≡ d.out ++ List.◌∷◌ b List.[]
    → d.buffer % 128 * 2 + buffer % 2 ≡ b
    → Follows done buffer byte 4 (feed (digit_at (shifted buffer byte) 4) d)
byte_1 done buffer byte b d l e o q =
    let pushed : (d.buffer * 32 % 2 ^ 64 + digit_at (shifted buffer byte) 4) / 16 % 256 ≡ b =
      omega (arith, q, l) in
    rw (e, pushed) (inr (byte, omega arith, omega arith, omega arith, rw o refl, omega (arith, l)))

pub byte_2 :
    (done : List ℕ) (buffer byte b : ℕ) (d : Decoder)
    → byte < 256
    → d.bits ≡ 6
    → done ≡ d.out ++ List.◌∷◌ b List.[]
    → d.buffer % 64 * 4 + buffer % 4 ≡ b
    → Follows done buffer byte 0
        (feed (digit_at (shifted buffer byte) 0) (feed (digit_at (shifted buffer byte) 5) d))
byte_2 done buffer byte b d l e o q =
    let first = d.buffer * 32 % 2 ^ 64 + digit_at (shifted buffer byte) 5 in
    let pushed : first / 8 % 256 ≡ b = omega (arith, q, l) in
    let last : (first * 32 % 2 ^ 64 + digit_at (shifted buffer byte) 0) / 1 % 256 ≡ byte =
      omega (arith, l) in
    rw (e, pushed, last) (inl (refl, refl, rw o refl))

pub byte_3 :
    (done : List ℕ) (buffer byte b : ℕ) (d : Decoder)
    → byte < 256
    → d.bits ≡ 5
    → done ≡ d.out ++ List.◌∷◌ b List.[]
    → d.buffer % 32 * 8 + buffer % 8 ≡ b
    → Follows done buffer byte 1
        (feed (digit_at (shifted buffer byte) 1) (feed (digit_at (shifted buffer byte) 6) d))
byte_3 done buffer byte b d l e o q =
    let first = d.buffer * 32 % 2 ^ 64 + digit_at (shifted buffer byte) 6 in
    let pushed : first / 4 % 256 ≡ b = omega (arith, q, l) in
    rw (e, pushed) (inr (byte, omega arith, omega arith, omega arith, rw o refl, omega (arith, l)))

pub byte_4 :
    (done : List ℕ) (buffer byte b : ℕ) (d : Decoder)
    → byte < 256
    → d.bits ≡ 4
    → done ≡ d.out ++ List.◌∷◌ b List.[]
    → d.buffer % 16 * 16 + buffer % 16 ≡ b
    → Follows done buffer byte 2
        (feed (digit_at (shifted buffer byte) 2) (feed (digit_at (shifted buffer byte) 7) d))
byte_4 done buffer byte b d l e o q =
    let first = d.buffer * 32 % 2 ^ 64 + digit_at (shifted buffer byte) 7 in
    let pushed : first / 2 % 256 ≡ b = omega (arith, q, l) in
    rw (e, pushed) (inr (byte, omega arith, omega arith, omega arith, rw o refl, omega (arith, l)))

-- The flush of the last bits, which makes the last byte whole.
pub flushed :
    (done : List ℕ) (buffer bits b : ℕ) (d : Decoder)
    → bits ≤ 4
    → 1 ≤ bits
    → bits + d.bits ≡ 8
    → done ≡ d.out ++ List.◌∷◌ b List.[]
    → d.buffer % 2 ^ d.bits * 2 ^ bits + buffer % 2 ^ bits ≡ b
    → (feed (buffer * 2 ^ (5 - bits) % 2 ^ 64 % 32) d).out ≡ done
flushed done buffer zero b d hi lo e o q = absurd (omega (arith, lo))
flushed done buffer (suc zero) b d hi lo e o q =
    let held : d.bits ≡ 7 = omega (arith, e) in
    let value : d.buffer % 128 * 2 + buffer % 2 ≡ b = rw held at q in
    let pushed : (d.buffer * 32 % 2 ^ 64 + buffer * 16 % 2 ^ 64 % 32) / 16 % 256 ≡ b =
      omega (arith, value) in
    rw (held, pushed) (sym o)
flushed done buffer (suc (suc zero)) b d hi lo e o q =
    let held : d.bits ≡ 6 = omega (arith, e) in
    let value : d.buffer % 64 * 4 + buffer % 4 ≡ b = rw held at q in
    let pushed : (d.buffer * 32 % 2 ^ 64 + buffer * 8 % 2 ^ 64 % 32) / 8 % 256 ≡ b =
      omega (arith, value) in
    rw (held, pushed) (sym o)
flushed done buffer (suc (suc (suc zero))) b d hi lo e o q =
    let held : d.bits ≡ 5 = omega (arith, e) in
    let value : d.buffer % 32 * 8 + buffer % 8 ≡ b = rw held at q in
    let pushed : (d.buffer * 32 % 2 ^ 64 + buffer * 4 % 2 ^ 64 % 32) / 4 % 256 ≡ b =
      omega (arith, value) in
    rw (held, pushed) (sym o)
flushed done buffer (suc (suc (suc (suc zero)))) b d hi lo e o q =
    let held : d.bits ≡ 4 = omega (arith, e) in
    let value : d.buffer % 16 * 16 + buffer % 16 ≡ b = rw held at q in
    let pushed : (d.buffer * 32 % 2 ^ 64 + buffer * 2 % 2 ^ 64 % 32) / 2 % 256 ≡ b =
      omega (arith, value) in
    rw (held, pushed) (sym o)
flushed done buffer (suc (suc (suc (suc (suc n))))) b d hi lo e o q = absurd (omega (arith, hi))
