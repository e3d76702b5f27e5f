-- ===== src/Examples/Codes.antt =====
-- Bytes that are encoded and decoded, and a handler id.
use Prim.Native.Char.{Char}
use Prim.Native.String.{String, len}
use aegis_fs.Prelude.{[], ◌∷◌, ◌≡◌, ◌≢◌, ◌↔◌, ◌≤◌, Elem, refl, arith}
use aegis_fs.Prelude.Chars.{split}
use aegis_fs.Prelude.Result.{ok}
use aegis_fs.Domain.Ids.{encode_base32hex}
use aegis_fs.Domain.Ids.Decode.{decode_base32hex}
use aegis_fs.Domain.Ids.Handler.{parse_handler_id, scan_handler}
use aegis_fs.Domain.Ids.Handler.Accepted.{parse_handler_id_iff}
use aegis_fs.Domain.Validation.Conditions.{StartsWithLetter, NameChars}
use aegis_fs.Domain.Ids.RoundTrip.{decode-encode}

abbrev quoted : Char → String
quoted c = "?"

decode-encode_example :
    decode_base32hex quoted (encode_base32hex (7 ∷ 255 ∷ 0 ∷ 128 ∷ 31 ∷ 200 ∷ [])) 24
    ≡ ok (7 ∷ 255 ∷ 0 ∷ 128 ∷ 31 ∷ 200 ∷ [])
decode-encode_example =
    decode-encode quoted 7 (255 ∷ 0 ∷ 128 ∷ 31 ∷ 200 ∷ []) 24
      (omega arith, (omega arith, (omega arith, (omega arith, (omega arith, (omega arith, tt))))))

parse_handler_id_iff_example : (parse_handler_id "runvane.http" ≡ ok "runvane.http") ↔ (
    (len "runvane.http" ≤ 80)
    × StartsWithLetter "runvane.http"
    × ((part : String) → Elem part (split 46 "runvane.http") → (part ≢ "") × NameChars part))
parse_handler_id_iff_example = parse_handler_id_iff "runvane.http"

-- The id is accepted.
accepted : parse_handler_id "runvane.http" ≡ ok "runvane.http"
unfolding parse_handler_id scan_handler
accepted = refl
