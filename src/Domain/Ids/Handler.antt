-- ===== src/Domain/Ids/Handler.antt =====
-- src/domain/ids.rs: the ids that a person gives, of tenants and of handlers. They are scanned by
-- characters: a character that is not in ASCII is refused as each of its bytes is.
pub mod Dotted
pub mod Accepted
use Prim.Native.Nat.{ℕ, ◌*◌, ◌^◌, suc}
use Prim.Native.Char.{Char, code}
use Prim.Native.String.{String, [], ◌∷◌, len}
use aegis_fs.Prelude.{Bool, true, false, not, ◌&&◌, ◌||◌, leb, ltb, eqb, if◌then◌else◌}
use aegis_fs.Prelude.Eq.{◌==◌, string_eq}
use aegis_fs.Prelude.Result.{Result, ok, err}
use aegis_fs.Domain.Ids.Decode.{IdError, malformed, is_digit}

-- `is_ascii_lowercase`
abbrev pub is_ascii_lowercase : ℕ → Bool
is_ascii_lowercase c = leb 97 c && leb c 122

-- A letter, a digit or a dash.
abbrev pub plain : Char → Bool
plain c = is_ascii_lowercase (code c) || is_digit (code c) || eqb (code c) 45

abbrev pub starts_lowercase : String → Bool
starts_lowercase [] = false
starts_lowercase (c ∷ _) = is_ascii_lowercase (code c)

unfoldable pub all_plain : String → Bool
all_plain [] = true
all_plain (c ∷ s) = plain c && all_plain s

unfoldable pub validate_tenant_id : String → Result IdError (Unit {0})
unfolding all_plain
validate_tenant_id value =
    if value == "" || ltb 48 (len value)
    then err (malformed "tenant" value "tenant id must be 1..=48 characters")
    else if not (starts_lowercase value)
    then err (malformed "tenant" value "tenant id must start with a lowercase letter")
    else if not (all_plain value)
    then err (malformed "tenant" value "tenant id may only contain [a-z0-9-]")
    else ok tt

abbrev pub max_handler_len : ℕ
max_handler_len = 80

-- The loop of `HandlerId::parse`: the last value of `prev_dot`, or the reason of the refusal.
unfoldable pub scan_handler : Bool → String → Result String Bool
scan_handler prev_dot [] = ok prev_dot
scan_handler prev_dot (c ∷ s) =
    if plain c
    then scan_handler false s
    else if eqb (code c) 46
    then (if prev_dot
        then err "handler id may not contain empty dot segments"
        else scan_handler true s)
    else err "handler id may only contain [a-z0-9.-]"

abbrev pub scanned_handler : String → Result String Bool → Result IdError String
scanned_handler value (err reason) = err (malformed "handler" value reason)
scanned_handler value (ok true) =
    err (malformed "handler" value "handler id may not end with a dot")
scanned_handler value (ok false) = ok value

unfoldable pub parse_handler_id : String → Result IdError String
unfolding scan_handler
parse_handler_id value =
    if value == "" || ltb max_handler_len (len value)
    then err (malformed "handler" value "handler id must be 1..=80 characters")
    else if not (starts_lowercase value)
    then err (malformed "handler" value "handler id must start with a lowercase letter")
    else scanned_handler value (scan_handler false value)
