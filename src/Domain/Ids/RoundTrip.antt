-- ===== src/Domain/Ids/RoundTrip.antt =====
-- src/domain/ids.rs: decoding gives back the bytes that were encoded.
use Prim.Native.Char.{Char}
use Prim.Native.String.{String}
use aegis_fs.Prelude.{
  ℕ, zero, suc, ◌+◌, ◌-◌, ◌*◌, ◌%◌, ◌^◌, ◌<◌, true, List, ◌++◌, length, ltb, if◌then◌else◌, ◌≡◌,
  refl, sym, ap, ◌∙◌, arith, inl, inr, Bool-cases,
}
use aegis_fs.Prelude.Eq.{◌==◌, string_eq, eq_iff}
use aegis_fs.Prelude.Result.{ok, err}
use aegis_fs.Domain.Ids.{emit, encode_from, encode_base32hex}
use aegis_fs.Domain.Ids.Decode.{too_long, Decoder, decoder, feed, decode_chars, decode_base32hex}
use aegis_fs.Domain.Ids.Digits.{decode_digit, ok_same}
use aegis_fs.Domain.Ids.Steps.{
  Pending, shifted, digit_at, byte_0, byte_1, byte_2, byte_3, byte_4, flushed,
}

-- Bytes.
abbrev pub AllBytes : List ℕ → Type 0
AllBytes List.[] = Unit
AllBytes (List.◌∷◌ b bs) = (b < 256) × AllBytes bs

-- The encoder's output so far, and what the decoder has of it.
abbrev Synced : List ℕ → (buffer bits : ℕ) → String → Type 0
Synced done buffer bits out =
    (d : Decoder) × (decode_chars out decoder ≡ ok d) × Pending done buffer bits d

digit_lt : (buffer bits : ℕ) → digit_at buffer bits < 32
digit_lt buffer bits = omega arith

-- The state of the encoder after a byte.
emit-Synced :
    (done : List ℕ) (buffer bits byte : ℕ) (out : String)
    → byte < 256
    → Synced done buffer bits out
    → Synced
        (done ++ List.◌∷◌ byte List.[])
        (shifted buffer byte)
        (emit 3 (shifted buffer byte) (bits + 8) out).0
        (emit 3 (shifted buffer byte) (bits + 8) out).1
unfolding emit
emit-Synced done buffer zero byte out l (d, h, inl (_, e, o)) =
    (_, decode_digit out _ d (digit_lt (shifted buffer byte) 3) h, byte_0 done buffer byte d l e o)
emit-Synced done buffer (suc bits) byte out l (d, h, inl (z, _, _)) = absurd (omega (arith, z))
emit-Synced done buffer zero byte out l (d, h, inr (b, _, lo, _, _, _)) = absurd (omega (arith, lo))
emit-Synced done buffer (suc zero) byte out l (d, h, inr (b, hi, lo, e, o, q)) =
    let held : d.bits ≡ 7 = omega (arith, e) in
    (
      _,
      decode_digit out _ d (digit_lt (shifted buffer byte) 4) h,
      byte_1 done buffer byte b d l held o (rw held at q),
    )
emit-Synced done buffer (suc (suc zero)) byte out l (d, h, inr (b, hi, lo, e, o, q)) =
    let held : d.bits ≡ 6 = omega (arith, e) in
    (
      _,
      decode_digit _ _ _ (digit_lt (shifted buffer byte) 0)
          (decode_digit out _ d (digit_lt (shifted buffer byte) 5) h),
      byte_2 done buffer byte b d l held o (rw held at q),
    )
emit-Synced done buffer (suc (suc (suc zero))) byte out l (d, h, inr (b, hi, lo, e, o, q)) =
    let held : d.bits ≡ 5 = omega (arith, e) in
    (
      _,
      decode_digit _ _ _ (digit_lt (shifted buffer byte) 1)
          (decode_digit out _ d (digit_lt (shifted buffer byte) 6) h),
      byte_3 done buffer byte b d l held o (rw held at q),
    )
emit-Synced done buffer (suc (suc (suc (suc zero)))) byte out l (d, h, inr (b, hi, lo, e, o, q)) =
    let held : d.bits ≡ 4 = omega (arith, e) in
    (
      _,
      decode_digit _ _ _ (digit_lt (shifted buffer byte) 2)
          (decode_digit out _ d (digit_lt (shifted buffer byte) 7) h),
      byte_4 done buffer byte b d l held o (rw held at q),
    )
emit-Synced done buffer (suc (suc (suc (suc (suc n))))) byte out l (d, h, inr (b, hi, _, _, _, _)) =
    absurd (omega (arith, hi))

append_nil : (bs : List ℕ) → bs ++ List.[] ≡ bs
append_nil List.[] = refl
append_nil (List.◌∷◌ b bs) = ap (List.◌∷◌ b) (append_nil bs)

append_list :
    (bs : List ℕ) (x : ℕ) (cs : List ℕ) → (bs ++ List.◌∷◌ x List.[]) ++ cs ≡ bs ++ List.◌∷◌ x cs
append_list List.[] x cs = refl
append_list (List.◌∷◌ b bs) x cs = ap (List.◌∷◌ b) (append_list bs x cs)

encode_from-decode :
    (src done : List ℕ) (buffer bits : ℕ) (out : String)
    → AllBytes src
    → Synced done buffer bits out
    → (d : Decoder) × (decode_chars (encode_from src buffer bits out) decoder ≡ ok d)
      × (d.out ≡ done ++ src)
unfolding encode_from decode_chars
encode_from-decode List.[] done buffer bits out l (d, h, inl (z, e, o)) =
    (d, rw z h, o ∙ sym (append_nil done))
encode_from-decode List.[] done buffer bits out l (d, h, inr (b, hi, lo, e, o, q)) =
    let more : ltb 0 bits ≡ true = ground (arith, lo) in
    (
      feed (buffer * 2 ^ (5 - bits) % 2 ^ 64 % 32) d,
      rw more (decode_digit out (buffer * 2 ^ (5 - bits) % 2 ^ 64 % 32) d (omega arith) h),
      flushed done buffer bits b d hi lo e o q ∙ sym (append_nil done),
    )
encode_from-decode (List.◌∷◌ byte src) done buffer bits out l s =
    let (d, h, o) =
      encode_from-decode src (done ++ List.◌∷◌ byte List.[]) (shifted buffer byte) _ _ l.1
        (emit-Synced done buffer bits byte out l.0 s) in
    (d, h, o ∙ append_list done byte src)

decode_whole :
    (debug : Char → String) (byte : ℕ) (src : List ℕ) (max_bytes : ℕ) (s : String) (d : Decoder)
    → decode_chars s decoder ≡ ok d
    → d.out ≡ List.◌∷◌ byte src
    → decode_base32hex debug s max_bytes ≡ (
        if ltb max_bytes (length (List.◌∷◌ byte src))
        then err (too_long s max_bytes)
        else ok (List.◌∷◌ byte src))
unfolding decode_base32hex decode_chars
decode_whole debug byte src max_bytes s d h o = elim (Bool-cases (s == "")) [
  | inl e ↦
      let same : decoder ≡ d = ok_same (rw ((eq_iff s "").0 e) at h) in
      absurd (ground (arith, ap (λ x. length x.out) same, ap length o))
  | inr e ↦ rw (decode_base32hex, e, h) (rw o refl)
]

-- The encoding of one byte or more decodes to these bytes, if they are no more than the largest
-- payload, and is refused as too long if they are more.
pub decode-encode :
    (debug : Char → String) (byte : ℕ) (src : List ℕ) (max_bytes : ℕ)
    → AllBytes (List.◌∷◌ byte src)
    → decode_base32hex debug (encode_base32hex (List.◌∷◌ byte src)) max_bytes ≡ (
        if ltb max_bytes (length (List.◌∷◌ byte src))
        then err (too_long (encode_base32hex (List.◌∷◌ byte src)) max_bytes)
        else ok (List.◌∷◌ byte src))
unfolding decode_base32hex encode_base32hex decode_chars
decode-encode debug byte src max_bytes l =
    let (d, h, o) =
      encode_from-decode (List.◌∷◌ byte src) List.[] 0 0 "" l
        (decoder, refl, inl (refl, refl, refl)) in
    decode_whole debug byte src max_bytes (encode_base32hex (List.◌∷◌ byte src)) d h o
