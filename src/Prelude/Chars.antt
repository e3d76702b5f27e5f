-- ===== src/Prelude/Chars.antt =====
-- The scanning of texts by characters, as the standard library does it: white space, splitting, and
-- the parsing of a `u32`.
use Prim.Native.Char.{Char, code}
use Prim.Native.String.{String, [], ◌∷◌, len, slice}
use text.Mathlib.Text.{starts_with}
use Prim.Native.Nat.{ℕ, ◌+◌, ◌-◌, ◌*◌, ◌^◌}
use mathlib.Core.Bool.{Bool, false, ◌&&◌, ◌||◌}
use mathlib.Core.Option.{Option, none, some}
use mathlib.Core.List.{List}
use aegis_fs.Prelude.Tests.{ltb, leb, eqb, if◌then◌else◌}
use aegis_fs.Prelude.Eq.{◌==◌, string_eq}
use aegis_fs.Prelude.Result.{Result, ok, err}

-- The characters with the property White_Space.
abbrev pub is_whitespace : Char → Bool
is_whitespace c =
    (leb 9 (code c) && leb (code c) 13)
    || eqb (code c) 32
    || eqb (code c) 0x85
    || eqb (code c) 0xA0
    || eqb (code c) 0x1680
    || (leb 0x2000 (code c) && leb (code c) 0x200A)
    || eqb (code c) 0x2028
    || eqb (code c) 0x2029
    || eqb (code c) 0x202F
    || eqb (code c) 0x205F
    || eqb (code c) 0x3000

unfoldable pub trim_start : String → String
trim_start [] = []
trim_start (c ∷ s) = let rest = trim_start s in if is_whitespace c then rest else c ∷ s

unfoldable pub trim_end : String → String
trim_end [] = []
trim_end (c ∷ s) = let rest = trim_end s in if is_whitespace c && rest == "" then [] else c ∷ rest

abbrev pub trim : String → String
trim s = trim_end (trim_start s)

-- A character in front of the first part.
abbrev pub extend : Char → List String → List String
extend c List.[] = List.◌∷◌ (c ∷ []) List.[]
extend c (List.◌∷◌ part parts) = List.◌∷◌ (c ∷ part) parts

-- The parts between the characters that pass a test: one more than there are such characters.
unfoldable pub split_by : (Char → Bool) → String → List String
split_by p [] = List.◌∷◌ [] List.[]
split_by p (c ∷ s) = let rest = split_by p s in if p c then List.◌∷◌ [] rest else extend c rest

abbrev pub split : ℕ → String → List String
split sep s = split_by (λ c. eqb (code c) sep) s

unfoldable pub has_char : ℕ → String → Bool
has_char sep [] = false
has_char sep (c ∷ s) = eqb (code c) sep || has_char sep s

abbrev pub strip_prefix : String → String → Option String
strip_prefix s prefix = if starts_with s prefix then some (slice s (len prefix) (len s)) else none

pub data ParseIntError : Type 0 where
  empty invalid_digit pos_overflow : ParseIntError

abbrev pub describe : ParseIntError → String
describe empty = "cannot parse integer from empty string"
describe invalid_digit = "invalid digit found in string"
describe pos_overflow = "number too large to fit in target type"

-- The digits that are left, behind the number `n`.
unfoldable pub parse_digits : ℕ → String → Result ParseIntError ℕ
parse_digits n [] = ok n
parse_digits n (c ∷ s) =
    let rest = parse_digits (n * 10 + (code c - 48)) s in
    if leb 48 (code c) && leb (code c) 57
    then if ltb (n * 10 + (code c - 48)) (2 ^ 32) then rest else err pos_overflow
    else err invalid_digit

-- `+` in front of digits is accepted.
unfoldable pub parse_u32 : String → Result ParseIntError ℕ
unfolding parse_digits
parse_u32 [] = err empty
parse_u32 (c ∷ s) =
    if eqb (code c) 43
    then if s == "" then err invalid_digit else parse_digits 0 s
    else parse_digits 0 (c ∷ s)
