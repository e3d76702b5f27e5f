-- ===== src/Domain/Ids/Decode.antt =====
-- src/domain/ids.rs: the decoding of base32hex, and the parsing of ids.
use Prim.Native.Char.{Char, code}
use Prim.Native.String.{String, [], ◌∷◌, len, slice}
use text.Mathlib.Text.{starts_with}
use aegis_fs.Prelude.{
  ℕ, ◌+◌, ◌-◌, ◌*◌, ◌/◌, ◌%◌, ◌^◌, Bool, not, ◌&&◌, Option, none, some, List, ◌++◌, length, ltb,
  leb, if◌then◌else◌,
}
use aegis_fs.Prelude.Eq.{◌==◌, string_eq}
use aegis_fs.Prelude.Result.{Result, ok, err, ◌>>=◌}
use aegis_fs.Prelude.Text.{◌<>◌}

abbrev pub max_id_len : ℕ
max_id_len = 96

pub data IdError : Type 0 where
  wrong_prefix : (id prefix : String) → IdError
  malformed : (kind id reason : String) → IdError
  too_long : (id : String) (limit : ℕ) → IdError

abbrev pub is_digit : ℕ → Bool
is_digit c = leb 48 c && leb c 57

-- The value of a digit: '0'..='9' and 'a'..='v'.
abbrev pub digit_value : Char → Option ℕ
digit_value c =
    if is_digit (code c)
    then some (code c - 48)
    else if leb 97 (code c) && leb (code c) 118
    then some (code c - 97 + 10)
    else none

-- The bits that are not written yet, in a `u64`, and the bytes that are.
pub record Decoder : Type 0 where
  pub buffer : ℕ
  pub bits : ℕ
  pub out : List ℕ

abbrev pub decoder : Decoder
decoder = record { buffer = 0; bits = 0; out = List.[] }

-- A digit shifted in; a byte is the low 8 bits of the shifted buffer.
abbrev pub feed : ℕ → Decoder → Decoder
feed value d =
    let buffer = d.buffer * 32 % 2 ^ 64 + value in
    if leb 8 (d.bits + 5)
    then record {
      buffer = buffer;
      bits = d.bits + 5 - 8;
      out = d.out ++ List.◌∷◌ (buffer / 2 ^ (d.bits + 5 - 8) % 256) List.[];
    }
    else record { buffer = buffer; bits = d.bits + 5; out = d.out }

abbrev pub fed : Char → Option ℕ → Decoder → Result Char Decoder
fed c none d = err c
fed c (some value) d = ok (feed value d)

-- The loop over the characters, with the first invalid one as its error.
unfoldable pub decode_chars : String → Decoder → Result Char Decoder
decode_chars [] d = ok d
decode_chars (c ∷ s) d = fed c (digit_value c) d >>= λ d'. decode_chars s d'

-- The text of a character under `{:?}` is a parameter.
module _ (debug : Char → String) where
  abbrev pub decoded : String → ℕ → Result Char Decoder → Result IdError (List ℕ)
  decoded input max_bytes (err c) =
      err (malformed "entity" input ("invalid base32hex character " <> debug c))
  decoded input max_bytes (ok d) =
      if ltb max_bytes (length d.out) then err (too_long input max_bytes) else ok d.out

  unfoldable pub decode_base32hex : String → ℕ → Result IdError (List ℕ)
  unfolding decode_chars
  decode_base32hex input max_bytes =
      if input == ""
      then err (malformed "entity" input "empty id body")
      else decoded input max_bytes (decode_chars input decoder)

-- What `define_id` is given.
pub record IdKind : Type 0 where
  pub prefix : String
  pub max_payload : ℕ
  pub kind : String

abbrev pub workflow_id_kind : IdKind
workflow_id_kind = record { prefix = "wf_"; max_payload = 24; kind = "wf" }

abbrev pub run_id_kind : IdKind
run_id_kind = record { prefix = "rn_"; max_payload = 26; kind = "run" }

abbrev pub task_run_id_kind : IdKind
task_run_id_kind = record { prefix = "tr_"; max_payload = 26; kind = "task" }

abbrev pub hook_id_kind : IdKind
hook_id_kind = record { prefix = "hx_"; max_payload = 24; kind = "hook" }

abbrev pub token_id_kind : IdKind
token_id_kind = record { prefix = "tk_"; max_payload = 24; kind = "token" }

abbrev pub compact_id_kind : IdKind
compact_id_kind = record { prefix = "cs_"; max_payload = 24; kind = "compact" }

abbrev pub audit_record_id_kind : IdKind
audit_record_id_kind = record { prefix = "au_"; max_payload = 26; kind = "audit" }

-- `parse` of an id type.
unfoldable pub parse_id : (Char → String) → IdKind → String → Result IdError String
unfolding decode_base32hex
parse_id debug k value =
    let body = slice value (len k.prefix) (len value) in
    if not (starts_with value k.prefix)
    then err (wrong_prefix value k.prefix)
    else if ltb max_id_len (len value)
    then err (too_long value max_id_len)
    else if body == ""
    then err (malformed k.kind value "missing id body")
    else decode_base32hex debug body k.max_payload >>= λ _. ok value
